-- ===== src/Registry/Insert.antt =====
-- What an insertion of list.c leaves in the lists.
use dsproj.Common.{
  ℕ, zero, suc, ◌+◌, ◌≡◌, ◌≢◌, inl, inr, refl, sym, ap, ◌∙◌, subst, arith, ℤ, pos, true, false,
  ◌||◌, ltb, ◌==◌, Option, none, some, List, [], ◌∷◌, ◌++◌, length, get_elem?, set, ◌>>=◌,
  Bool-cases, Option-cases, All,
}
use dsproj.Text.{Bytes, same}
use mathlib.Core.Option.{some-injective}
use dsproj.Registry.{
  Slot, Filelist, Lists, walked, datanode_search, find_file, filelist_search, strip_slash,
  fill_slot, init_file, filenode_insert, enter_file, add_file, add_replica, fits100,
  datanode_insert, datanode_dir,
}

pub same_refl : (s : Bytes) → same s s ≡ true
same_refl [] = refl
same_refl (c ∷ s) = ground (arith, same_refl s)

-- Some place of the file is a replica on that datanode.
abbrev pub HasReplica : Bytes → List Slot → Type 0
HasReplica dn sls =
    (j : ℕ) × (sl : Slot) × (get_elem? sls j ≡ some sl) × (sl.rep ≡ 1) × (sl.replica ≡ dn)

pub filled_rest :
    (new sl : Slot) (sls sls' : List Slot)
    → (sl.rep == 0) ≡ false
    → fill_slot new (sl ∷ sls) ≡ some sls'
    → (rest : List Slot) × (fill_slot new sls ≡ some rest) × (sl ∷ rest ≡ sls')
filled_rest new sl sls sls' used h = elim (Option-cases (fill_slot new sls)) [
  | inl e ↦ absurd (ground arith)
  | inr (rest, e) ↦ (rest, e, ground arith)
]

fill_slot-HasReplica :
    (new : Slot) (sls sls' : List Slot)
    → new.rep ≡ 1
    → fill_slot new sls ≡ some sls'
    → HasReplica new.replica sls'
fill_slot-HasReplica new [] sls' r h = cc
fill_slot-HasReplica new (sl ∷ sls) sls' r h = elim (Bool-cases (sl.rep == 0)) [
  | inl free ↦ (0, new, ground arith, r, refl)
  | inr used ↦
      (let (rest, filled, e) = filled_rest new sl sls sls' used h in
        let (j, found, at, one, here) = fill_slot-HasReplica new sls rest r filled in
        (suc j, found, rw (sym e) at, one, here))
]

find_file_append :
    (i : ℕ) (name : Bytes) (fs : List Filelist) (f : Filelist)
    → find_file i name fs ≡ none
    → f.name ≡ name
    → (find_file i name (fs ++ f ∷ []) ≡ some (i + length fs))
      × (get_elem? (fs ++ f ∷ []) (length fs) ≡ some f)
find_file_append i name [] f h e = ground (arith, same_refl name)
find_file_append i name (g ∷ fs) f h e = ground (arith, find_file_append (i + 1) name fs f)

-- The place that find_file gives is within the list.
find_file_sound :
    (i k : ℕ) (name : Bytes) (fs : List Filelist)
    → find_file i name fs ≡ some k
    → (j : ℕ) × (f : Filelist) × (k ≡ i + j) × (get_elem? fs j ≡ some f)
find_file_sound i k name [] h = cc
find_file_sound i k name (f ∷ fs) h =
    elim (Bool-cases (same f.name name || same f.name (strip_slash name))) [
      | inl here ↦ (0, f, ground arith, refl)
      | inr later ↦
          (let (j, g, e, at) = find_file_sound (i + 1) k name fs (rw later at h) in
            (suc j, g, omega arith, at))
    ]

-- Writing other places into a listed file keeps what is found, since its name stays.
find_file-set :
    (i j : ℕ) (name : Bytes) (fs : List Filelist) (f : Filelist) (sls : List Slot)
    → get_elem? fs j ≡ some f
    → (find_file i name (set fs j (record { name = f.name; slots = sls })) ≡ find_file i name fs)
      × (get_elem? (set fs j (record { name = f.name; slots = sls })) j
          ≡ some (record { name = f.name; slots = sls }))
find_file-set i j name [] f sls h = cc
find_file-set i zero name (g ∷ fs) f sls h = ground arith
find_file-set i (suc j) name (g ∷ fs) f sls h =
    ground (arith, find_file-set (i + 1) j name fs f sls)

-- The file is found at a place of the list, and has a replica on that datanode.
abbrev pub IsListed : Bytes → Bytes → List Filelist → Type 0
IsListed name dn fs =
    (i : ℕ) × (f : Filelist) × (find_file 0 name fs ≡ some i)
    × (get_elem? fs i ≡ some f)
    × HasReplica dn f.slots

pub >>=-some {ℓ κ} :
    {A : Type ℓ} {B : Type κ} (m : Option A) (f : A → Option B) {b : B}
    → (m >>= f) ≡ some b
    → (a : A) × (m ≡ some a) × (f a ≡ some b)
>>=-some none f h = cc
>>=-some (some a) f h = (a, refl, h)

add_file-IsListed :
    (new : Slot) (name : Bytes) (fs fs' : List Filelist)
    → new.rep ≡ 1
    → find_file 0 name fs ≡ none
    → add_file new name fs ≡ some fs'
    → IsListed name new.replica fs'
add_file-IsListed new name fs fs' one absent h =
    let entered : List Slot → Option (List Filelist) =
      λ slots. some (fs ++ record { name = name; slots = slots } ∷ []) in
    let (t, _, h1) = >>=-some (fits100 name) (λ _. fill_slot new init_file >>= entered) h in
    let (sls, filled, h2) = >>=-some (fill_slot new init_file) entered h1 in
    let f : Filelist = record { name = name; slots = sls } in
    let (at, got) = find_file_append 0 name fs f absent refl in
    subst (IsListed name new.replica) (some-injective _ _ h2) (
      length fs,
      f,
      at ∙ ap some (omega arith),
      got,
      fill_slot-HasReplica new init_file sls one filled,
    )

add_replica-IsListed :
    (new : Slot) (name : Bytes) (i : ℕ) (fs fs' : List Filelist)
    → new.rep ≡ 1
    → find_file 0 name fs ≡ some i
    → add_replica new i fs ≡ some fs'
    → IsListed name new.replica fs'
add_replica-IsListed new name i fs fs' one present h =
    let (f, at, h1) = >>=-some (get_elem? fs i) _ h in
    let (sls, filled, h2) = >>=-some (fill_slot new f.slots) _ h1 in
    let (same_place, got) = find_file-set 0 i name fs f sls at in
    subst (IsListed name new.replica) (some-injective _ _ h2) (
      i,
      record { name = f.name; slots = sls },
      same_place ∙ present,
      got,
      fill_slot-HasReplica new f.slots sls one filled,
    )

-- A search that returns gives what find_file gives.
pub walked-same :
    (fs : List Filelist) (m : Option ℕ) {found : Option ℕ} → walked fs m ≡ some found → found ≡ m
unfolding walked
walked-same fs (some i) h = some-injective _ _ (sym h)
walked-same [] none h = some-injective _ _ (sym h)
walked-same (f ∷ fs) none h = cc

-- After an insertion that returns, the file is found under its name and has a replica on that
-- datanode, whether it was listed before or not; the datanodes are as before.
pub filenode_insert-IsListed :
    (c : ℕ) (name dn : Bytes) (type ino : ℤ) (st : Lists) {st' : Lists}
    → filenode_insert (c ∷ name) type ino dn st ≡ some st'
    → IsListed (c ∷ name) dn st'.files × (st'.datanodes ≡ st.datanodes)
unfolding filenode_insert filelist_search
filenode_insert-IsListed c name dn type ino st {st'} h =
    let new : Slot = record { rep = 1; replica = dn; d_ino = ino; d_type = type } in
    let (t, _, h1) = >>=-some (fits100 dn) _ h in
    let (found, searched, h3) = >>=-some (walked st.files (find_file 0 (c ∷ name) st.files)) _ h1 in
    let is = walked-same st.files _ searched in
    let (fs, entered, h2) = >>=-some (enter_file new (c ∷ name) found st.files) _ h3 in
    let listed : IsListed (c ∷ name) dn fs = elim (Option-cases (find_file 0 (c ∷ name) st.files)) [
      | inl absent ↦
          add_file-IsListed new (c ∷ name) st.files fs refl absent
            (rw (is ∙ absent, enter_file) at entered)
      | inr (i, present) ↦
          add_replica-IsListed new (c ∷ name) i st.files fs refl present
            (rw (is ∙ present, enter_file) at entered)
    ] in
    (
      subst (IsListed (c ∷ name) dn) (ap (λ (s : Lists). s.files) (some-injective _ _ h2)) listed,
      ap (λ (s : Lists). s.datanodes) (sym (some-injective _ _ h2)),
    )

fill_slot-full :
    (new : Slot) (sls : List Slot) → All (λ (sl : Slot). sl.rep ≢ 0) sls → fill_slot new sls ≡ none
fill_slot-full new [] full = refl
fill_slot-full new (sl ∷ sls) full = ground (arith, fill_slot-full new sls full.1)

enter_file-full :
    (new : Slot) (name : Bytes) (i : ℕ) (f : Filelist) (fs : List Filelist)
    → get_elem? fs i ≡ some f
    → All (λ (sl : Slot). sl.rep ≢ 0) f.slots
    → enter_file new name (some i) fs ≡ none
enter_file-full new name i f fs at full =
    rw (enter_file, add_replica, at, fill_slot-full new f.slots full)

-- Once the entry for the datanodes' folder has no free place, registering a datanode, known or not,
-- writes outside the arrays.
pub datanode_insert_full :
    (name ip : Bytes) (alive : ℤ) (st : Lists) (i : ℕ) (f : Filelist)
    → find_file 0 datanode_dir st.files ≡ some i
    → get_elem? st.files i ≡ some f
    → All (λ (sl : Slot). sl.rep ≢ 0) f.slots
    → datanode_insert name ip alive st ≡ none
unfolding datanode_insert datanode_search filenode_insert filelist_search walked
datanode_insert_full name ip alive st i f listed at full =
    let new : Slot = record { rep = 1; replica = name; d_ino = pos 0; d_type = pos 0 } in
    elim (Bool-cases (ltb (length name) 100)) [
      | inl short ↦ rw (short, listed, enter_file-full new datanode_dir i f st.files at full)
      | inr long ↦ rw long
    ]
