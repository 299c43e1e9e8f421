-- ===== src/Registry/Invariant.antt =====
-- Replicas on registered datanodes: the insertions of list.c.
use dsproj.Common.{
  All-get, All-map, All-set, ℕ, zero, suc, ◌≡◌, ◌≢◌, inl, inr, refl, sym, ap, ◌∙◌, subst, arith, ℤ,
  pos, ◌==◌, Option, none, some, List, [], ◌∷◌, ◌++◌, get_elem?, replicate, ◌>>=◌, Bool-cases, All,
  All-append,
}
use dsproj.Text.{Bytes}
use mathlib.Core.Option.{some-injective}
use dsproj.Registry.{
  Datanode, Slot, Filelist, Lists, find_node, datanode_search, filelist_search, fill_slot,
  init_file, filenode_insert, enter_file, fits100, free_slot, datanode_filewrite, enter_node,
  datanode_insert, datanode_dir,
}
use dsproj.Registry.Insert.{>>=-some, filled_rest}
use dsproj.Registry.Known.{IsKnown, enter_node-IsKnown, enter_node_new}

-- Each place that is taken names a registered datanode.
abbrev pub IsPlaced : List Datanode → List Slot → Type 0
IsPlaced dns sls = All (λ (sl : Slot). sl.rep ≢ 0 → IsKnown dns sl.replica) sls

abbrev pub IsWellFormed : List Datanode → List Filelist → Type 0
IsWellFormed dns fs = All (λ (f : Filelist). IsPlaced dns f.slots) fs

fill_slot-IsPlaced :
    (dns : List Datanode) (new : Slot) (sls sls' : List Slot)
    → IsKnown dns new.replica
    → IsPlaced dns sls
    → fill_slot new sls ≡ some sls'
    → IsPlaced dns sls'
fill_slot-IsPlaced dns new [] sls' known placed h = cc
fill_slot-IsPlaced dns new (sl ∷ sls) sls' known placed h = elim (Bool-cases (sl.rep == 0)) [
  | inl free ↦
      (let e : new ∷ sls ≡ sls' = some-injective _ _ (rw free at h) in
        subst (IsPlaced dns) e ((λ _. known), placed.1))
  | inr used ↦
      (let (rest, filled, e) = filled_rest new sl sls sls' used h in
        subst (IsPlaced dns) e
          (placed.0, fill_slot-IsPlaced dns new sls rest known placed.1 filled))
]

replicate-IsPlaced : (dns : List Datanode) (n : ℕ) → IsPlaced dns (replicate n free_slot)
replicate-IsPlaced dns zero = tt
replicate-IsPlaced dns (suc n) = ((λ h. absurd (h refl)), replicate-IsPlaced dns n)

enter_file-IsWellFormed :
    (dns : List Datanode) (new : Slot) (name : Bytes) (found : Option ℕ) (fs fs' : List Filelist)
    → IsKnown dns new.replica
    → IsWellFormed dns fs
    → enter_file new name found fs ≡ some fs'
    → IsWellFormed dns fs'
enter_file-IsWellFormed dns new name none fs fs' known all h =
    let listed : List Slot → Option (List Filelist) =
      λ slots. some (fs ++ record { name = name; slots = slots } ∷ []) in
    let (t, _, h1) = >>=-some (fits100 name) (λ _. fill_slot new init_file >>= listed) h in
    let (sls, filled, h2) = >>=-some (fill_slot new init_file) listed h1 in
    let placed =
      fill_slot-IsPlaced dns new init_file sls known (replicate-IsPlaced dns 50) filled in
    subst (IsWellFormed dns) (some-injective _ _ h2) (
      All-append (λ (f : Filelist). IsPlaced dns f.slots) fs
        (record { name = name; slots = sls } ∷ []) all (placed, tt))
enter_file-IsWellFormed dns new name (some i) fs fs' known all h =
    let (f, at, h1) = >>=-some (get_elem? fs i) _ h in
    let (sls, filled, h2) = >>=-some (fill_slot new f.slots) _ h1 in
    let old = All-get (λ (f : Filelist). IsPlaced dns f.slots) fs i all at in
    let placed = fill_slot-IsPlaced dns new f.slots sls known old filled in
    subst (IsWellFormed dns) (some-injective _ _ h2) (
      All-set (λ (f : Filelist). IsPlaced dns f.slots) fs i (record { name = f.name; slots = sls })
        all placed)

-- If every replica is on a registered datanode, entering a replica on a registered datanode leaves
-- it so, when it returns.
pub filenode_insert-IsWellFormed :
    (name dn : Bytes) (type ino : ℤ) (st : Lists) {st' : Lists}
    → IsKnown st.datanodes dn
    → IsWellFormed st.datanodes st.files
    → filenode_insert name type ino dn st ≡ some st'
    → IsWellFormed st'.datanodes st'.files
unfolding filenode_insert
filenode_insert-IsWellFormed name dn type ino st {st'} known all h =
    let new : Slot = record { rep = 1; replica = dn; d_ino = ino; d_type = type } in
    let (t, _, h1) = >>=-some (fits100 dn) _ h in
    let (found, _, h2) = >>=-some (filelist_search name st) _ h1 in
    let (fs, entered, h3) = >>=-some (enter_file new name found st.files) _ h2 in
    subst (λ (s : Lists). IsWellFormed s.datanodes s.files) (some-injective _ _ h3)
      (enter_file-IsWellFormed st.datanodes new name found st.files fs known all entered)

pub datanode_filewrite-lists :
    (st : Lists) {st' : Lists}
    → datanode_filewrite st ≡ some st'
    → (st'.datanodes ≡ st.datanodes) × (st'.files ≡ st.files)
unfolding datanode_filewrite
datanode_filewrite-lists st h = ground arith

pub filenode_insert-datanodes :
    (name dn : Bytes) (type ino : ℤ) (st : Lists) {st' : Lists}
    → filenode_insert name type ino dn st ≡ some st'
    → st'.datanodes ≡ st.datanodes
unfolding filenode_insert
filenode_insert-datanodes name dn type ino st h =
    let (t, _, h1) = >>=-some (fits100 dn) _ h in
    let (found, _, h2) = >>=-some (filelist_search name st) _ h1 in
    let (fs, _, h3) = >>=-some (enter_file _ name found st.files) _ h2 in
    ap (λ (s : Lists). s.datanodes) (sym (some-injective _ _ h3))

-- A registration that returns leaves the datanodes as enter_node makes them.
pub datanode_insert-datanodes :
    (name ip : Bytes) (alive : ℤ) (st : Lists) {st' : Lists}
    → datanode_insert name ip alive st ≡ some st'
    → st'.datanodes
      ≡ enter_node
          (find_node 0 name st.datanodes)
          (record { node = name; ip = ip; alive = alive })
          st.datanodes
unfolding datanode_insert datanode_search
datanode_insert-datanodes name ip alive st h =
    let (st2, inserted, h1) =
      >>=-some (filenode_insert datanode_dir (pos 0) (pos 0) name _) datanode_filewrite h in
    (datanode_filewrite-lists st2 h1).0
    ∙ filenode_insert-datanodes datanode_dir name (pos 0) (pos 0) _ inserted

-- If every replica is on a registered datanode, a registration that returns leaves it so, keeps the
-- registered datanodes, and registers the new one.
pub datanode_insert-IsWellFormed :
    (name ip : Bytes) (alive : ℤ) (st : Lists) {st' : Lists}
    → IsWellFormed st.datanodes st.files
    → datanode_insert name ip alive st ≡ some st'
    → IsWellFormed st'.datanodes st'.files
      × IsKnown st'.datanodes name
      × ((other : Bytes) → IsKnown st.datanodes other → IsKnown st'.datanodes other)
unfolding datanode_insert datanode_search
datanode_insert-IsWellFormed name ip alive st {st'} all h =
    let dn : Datanode = record { node = name; ip = ip; alive = alive } in
    let found = find_node 0 name st.datanodes in
    let dns = enter_node found dn st.datanodes in
    let st1 : Lists = record st { datanodes = dns; dlist = found } in
    let keeps : (other : Bytes) → IsKnown st.datanodes other → IsKnown dns other =
      λ other known. enter_node-IsKnown found dn st.datanodes other known in
    let (st2, inserted, h1) =
      >>=-some (filenode_insert datanode_dir (pos 0) (pos 0) name st1) datanode_filewrite h in
    let same_dns : st'.datanodes ≡ dns =
      (datanode_filewrite-lists st2 h1).0
      ∙ filenode_insert-datanodes datanode_dir name (pos 0) (pos 0) st1 inserted in
    let known = enter_node_new dn st.datanodes in
    let formed =
      filenode_insert-IsWellFormed datanode_dir name (pos 0) (pos 0) st1 known
        (All-map _ _ (λ f. All-map _ _ (λ sl placed used. keeps sl.replica (placed used)) f.slots)
          st.files all)
        inserted in
    (
      rw ((datanode_filewrite-lists st2 h1).0, (datanode_filewrite-lists st2 h1).1) formed,
      subst (λ ds. IsKnown ds name) (sym same_dns) known,
      λ other old. subst (λ ds. IsKnown ds other) (sym same_dns) (keeps other old),
    )
