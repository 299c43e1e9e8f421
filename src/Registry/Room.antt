-- ===== src/Registry/Room.antt =====
-- The insertions of list.c into an entry with a free place.
use dsproj.Common.{
  ◌+◌, ◌≢◌, ◌⊎◌, All, Option-cases, true, false, ℕ, zero, suc, ◌<◌, ◌≡◌, inl, inr, refl, ap, ◌∙◌,
  arith, ℤ, pos, ◌==◌, Option, none, some, List, [], ◌∷◌, ◌++◌, length, get_elem?, set, replicate,
  Bool-cases, lt→ltb,
}
use dsproj.Text.{Bytes, same}
use mathlib.Core.Option.{some-injective}
use dsproj.Registry.{
  Datanode, set_alive, walked, Slot, Filelist, Lists, find_node, datanode_search, find_file,
  filelist_search, fill_slot, filenode_insert, enter_file, free_slot, config_text,
  datanode_filewrite, enter_node, datanode_insert, datanode_dir,
}
use dsproj.Registry.Known.{same-eq}
use dsproj.Registry.Insert.{same_refl, filenode_insert-IsListed, IsListed}

abbrev pub HasRoom : List Slot → Type 0
HasRoom sls = (j : ℕ) × (sl : Slot) × (get_elem? sls j ≡ some sl) × (sl.rep ≡ 0)

fill_slot_returns :
    (new : Slot) (sls : List Slot) (j : ℕ) (sl : Slot)
    → get_elem? sls j ≡ some sl
    → sl.rep ≡ 0
    → (sls' : List Slot) × (fill_slot new sls ≡ some sls')
fill_slot_returns new [] j sl at free = cc
fill_slot_returns new (x ∷ sls) zero sl at free =
    let e : x.rep ≡ 0 = ap (λ (y : Slot). y.rep) (some-injective _ _ at) ∙ free in (new ∷ sls, rw e)
fill_slot_returns new (x ∷ sls) (suc j) sl at free =
    let (rest, r) = fill_slot_returns new sls j sl at free in
    elim (Bool-cases (x.rep == 0)) [
      | inl yes1 ↦ (new ∷ sls, rw yes1)
      | inr used ↦ (x ∷ rest, rw (used, r))
    ]

-- If the name is listed, its entry has a free place.
abbrev pub HasRoomFor : Bytes → List Filelist → Type 0
HasRoomFor name fs =
    (i : ℕ)
    → find_file 0 name fs ≡ some i
    → (f : Filelist) × (get_elem? fs i ≡ some f) × HasRoom f.slots

-- The search for the name ends: it is listed, or nothing is.
abbrev pub IsSearchable : Bytes → List Filelist → Type 0
IsSearchable name fs = (fs ≡ []) ⊎ ((i : ℕ) × (find_file 0 name fs ≡ some i))

walked_returns :
    (name : Bytes) (fs : List Filelist)
    → IsSearchable name fs
    → walked fs (find_file 0 name fs) ≡ some (find_file 0 name fs)
unfolding walked
walked_returns name fs (inl e) = rw e refl
walked_returns name fs (inr (i, listed)) = rw listed refl

enter_file_returns :
    (new : Slot) (name : Bytes) (found : Option ℕ) (fs : List Filelist)
    → length name < 100
    → ((i : ℕ) → found ≡ some i → (f : Filelist) × (get_elem? fs i ≡ some f) × HasRoom f.slots)
    → (fs' : List Filelist) × (enter_file new name found fs ≡ some fs')
enter_file_returns new name none fs short room = (
  fs ++ record { name = name; slots = new ∷ replicate 49 free_slot } ∷ [],
  rw (lt→ltb (length name) 100 short),
)
enter_file_returns new name (some i) fs short room =
    let (f, at, (j, sl, at_j, free)) = room i refl in
    let (sls, r) = fill_slot_returns new f.slots j sl at_j free in
    (set fs i (record { name = f.name; slots = sls }), rw (at, r))

pub filenode_insert_returns :
    (c : ℕ) (name dn : Bytes) (type ino : ℤ) (st : Lists)
    → length (c ∷ name) < 100
    → length dn < 100
    → HasRoomFor (c ∷ name) st.files
    → IsSearchable (c ∷ name) st.files
    → (st' : Lists) × (filenode_insert (c ∷ name) type ino dn st ≡ some st')
      × IsListed (c ∷ name) dn st'.files
      × (st'.datanodes ≡ st.datanodes)
unfolding filenode_insert filelist_search
filenode_insert_returns c name dn type ino st short dn_short room searchable =
    let new : Slot = record { rep = 1; replica = dn; d_ino = ino; d_type = type } in
    let (fs, r) =
      enter_file_returns new (c ∷ name) (find_file 0 (c ∷ name) st.files) st.files short room in
    let whole : filenode_insert (c ∷ name) type ino dn st ≡ some (record st { files = fs }) =
      rw (lt→ltb (length dn) 100 dn_short, walked_returns (c ∷ name) st.files searchable)
        (rw r refl) in
    let (listed, same_nodes) = filenode_insert-IsListed c name dn type ino st whole in
    (record st { files = fs }, whole, listed, same_nodes)

-- The second list is the first with the datanode behind it, if none of its name is there, or with the
-- first one of that name set to alive.
abbrev pub IsEntered : Datanode → List Datanode → List Datanode → Type 0
IsEntered dn dns dns' =
    (All (λ (d : Datanode). d.node ≢ dn.node) dns × (dns' ≡ dns ++ dn ∷ []))
    ⊎ ((before after : List Datanode) × (d : Datanode) × (dns ≡ before ++ d ∷ after)
        × All (λ (d : Datanode). d.node ≢ dn.node) before
        × (d.node ≡ dn.node)
        × (dns' ≡ before ++ record d { alive = pos 1 } ∷ after))

differ : (s t : Bytes) → same s t ≡ false → s ≢ t
differ s t h e = (let yes1 : same s t ≡ true = rw e (same_refl t) in cc)

unknown :
    (i : ℕ) (name : Bytes) (dns : List Datanode)
    → find_node i name dns ≡ none
    → All (λ (d : Datanode). d.node ≢ name) dns
unknown i name [] h = tt
unknown i name (d ∷ dns) h = elim (Bool-cases (same d.node name)) [
  | inl here ↦ absurd (ground arith)
  | inr later ↦ (differ d.node name later, unknown (i + 1) name dns (rw later at h))
]

known :
    (i k : ℕ) (name : Bytes) (dns : List Datanode)
    → find_node i name dns ≡ some k
    → (j : ℕ) × (before after : List Datanode) × (d : Datanode) × (k ≡ i + j)
      × (dns ≡ before ++ d ∷ after)
      × All (λ (d : Datanode). d.node ≢ name) before
      × (d.node ≡ name)
      × (set_alive (pos 1) j dns ≡ before ++ record d { alive = pos 1 } ∷ after)
known i k name [] h = cc
known i k name (d ∷ dns) h = elim (Bool-cases (same d.node name)) [
  | inl here ↦ (0, [], dns, d, ground arith, refl, tt, same-eq d.node name here, refl)
  | inr later ↦
      (let (j, before, after, e, at, whole, first, named, left) =
          known (i + 1) k name dns (rw later at h) in
        (
          suc j,
          d ∷ before,
          after,
          e,
          omega arith,
          ap (λ r. d ∷ r) whole,
          (differ d.node name later, first),
          named,
          ap (λ r. d ∷ r) left,
        ))
]

pub enter_node-IsEntered :
    (dn : Datanode) (dns : List Datanode)
    → IsEntered dn dns (enter_node (find_node 0 dn.node dns) dn dns)
enter_node-IsEntered dn dns = elim (Option-cases (find_node 0 dn.node dns)) [
  | inl new ↦ inl (unknown 0 dn.node dns new, rw new refl)
  | inr (k, e) ↦
      (let (j, before, after, d, at, whole, first, named, left) = known 0 k dn.node dns e in
        let place : k ≡ j = omega arith in
        inr (before, after, d, whole, first, named, rw (e, place) left))
]

pub datanode_insert-enter_node :
    (name ip : Bytes) (alive : ℤ) (st : Lists)
    → length name < 100
    → HasRoomFor datanode_dir st.files
    → IsSearchable datanode_dir st.files
    → length (
        config_text (
          enter_node
            (find_node 0 name st.datanodes)
            (record { node = name; ip = ip; alive = alive })
            st.datanodes))
      < 10000
    → (st' : Lists) × (datanode_insert name ip alive st ≡ some st')
      × (st'.datanodes
          ≡ enter_node
              (find_node 0 name st.datanodes)
              (record { node = name; ip = ip; alive = alive })
              st.datanodes)
      × (st'.config ≡ config_text st'.datanodes)
      × IsListed datanode_dir name st'.files
unfolding datanode_insert datanode_search datanode_filewrite
datanode_insert-enter_node name ip alive st short room searchable fits =
    let found = find_node 0 name st.datanodes in
    let dn : Datanode = record { node = name; ip = ip; alive = alive } in
    let dns = enter_node found dn st.datanodes in
    let st1 : Lists = record st { datanodes = dns; dlist = found } in
    let (st2, r, listed, e) =
      filenode_insert_returns _ _ name (pos 0) (pos 0) st1 (omega arith) short room searchable in
    let small : length (config_text st2.datanodes) < 10000 = rw e fits in
    (
      record st2 { dlist = none; config = config_text st2.datanodes },
      rw (r, lt→ltb (length (config_text st2.datanodes)) 10000 small),
      e,
      refl,
      listed,
    )
