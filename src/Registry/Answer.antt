-- ===== src/Registry/Answer.antt =====
-- getfiledn of list.c against a description of the datanode it is to give.
use dsproj.Common.{
  All-get, ℕ, suc, ◌+◌, ◌≡◌, ◌≢◌, ◌⊎◌, inl, inr, refl, sym, ap, ◌∙◌, arith, Bool, true, ◌&&◌, ltb,
  ◌==◌, if◌then◌else◌, Option, none, some, List, [], ◌∷◌, get_elem?, Bool-cases, Option-cases,
}
use dsproj.Text.{Bytes}
use dsproj.Registry.{
  Slot, Filelist, Lists, Pong, check_nodealive, datanode_search, find_file, filelist_search,
}
use dsproj.Registry.Known.{find_node-get}
use dsproj.Registry.Locate.{
  fetch_slot, get_repfetchnum, get_repfetchnum1, replica_of, getfiledn, replica_at,
}
use dsproj.Registry.Invariant.{IsPlaced, IsWellFormed}

-- The first place with such a `rep` on a datanode that answers.
abbrev pub answering : Pong → (ℕ → Bool) → List Slot → Option Bytes
answering pong wanted [] = none
answering pong wanted (sl ∷ sls) =
    if wanted sl.rep && check_nodealive pong sl.replica
    then some sl.replica
    else answering pong wanted sls

-- What getfiledn is to give: a replica in step if one answers, else any that answers.
abbrev pub file_replica : Pong → List Slot → Option Bytes
file_replica pong sls = elim (answering pong (λ rep. rep == 1) sls) [
  | none ↦ answering pong (λ rep. ltb 1 rep) sls
  | some dn ↦ some dn
]

-- A search among places from `i` on that finds the right one, and changes `dlist` only.
abbrev Finds : Option Bytes → ℕ → List Slot → Lists → Option (Option ℕ × Lists) → Type 0
Finds goal i sls st m =
    (o : Option ℕ) × (d : Option ℕ) × (m ≡ some (o, record st { dlist = d }))
    × (((o ≡ none) × (goal ≡ none))
        ⊎ ((j : ℕ) × (o ≡ some (i + j)) × (goal ≢ none) × (replica_at sls j ≡ goal)))

Finds-shift :
    (goal goal' : Option Bytes) (i : ℕ) (sl : Slot) (sls : List Slot) (st : Lists)
    (m : Option (Option ℕ × Lists))
    → goal' ≡ goal
    → Finds goal (i + 1) sls st m
    → Finds goal' i (sl ∷ sls) st m
Finds-shift goal goal' i sl sls st m e (o, d, r, inl (missed, none_left)) =
    (o, d, r, inl (missed, e ∙ none_left))
Finds-shift goal goal' i sl sls st m e (o, d, r, inr (j, hit, some_left, at)) =
    (o, d, r, inr (suc j, hit ∙ ap some (omega arith), (λ h. some_left (sym e ∙ h)), at ∙ sym e))

fetch_slot-Finds :
    (pong : Pong) (wanted : ℕ → Bool) (i : ℕ) (sls : List Slot) (st : Lists)
    → ((rep : ℕ) → wanted rep ≡ true → rep ≢ 0)
    → IsPlaced st.datanodes sls
    → Finds (answering pong wanted sls) i sls st (fetch_slot pong wanted i sls st)
unfolding fetch_slot datanode_search
fetch_slot-Finds pong wanted i [] st used placed = (none, st.dlist, refl, inl (refl, refl))
fetch_slot-Finds pong wanted i (sl ∷ sls) st used placed = elim (Bool-cases (wanted sl.rep)) [
  | inl w ↦
      (let (k, known) = placed.0 (used sl.rep w) in
        let (dn, at, named) = find_node-get k sl.replica st.datanodes known in
        elim (Bool-cases (check_nodealive pong sl.replica)) [
          | inl up ↦ (
            some i,
            some k,
            rw (w, known, at, named, up),
            inr (0, ap some (omega arith), rw (w, up) (λ h. cc), rw (w, up)),
          )
          | inr down ↦
              (let st1 : Lists = record st { dlist = some k } in
                let found = fetch_slot-Finds pong wanted (i + 1) sls st1 used placed.1 in
                rw (w, known, at, named, down)
                  (Finds-shift _ _ i sl sls st (fetch_slot pong wanted (i + 1) sls st1) refl found))
        ])
  | inr w ↦
      (let found = fetch_slot-Finds pong wanted (i + 1) sls st used placed.1 in
        rw w (Finds-shift _ _ i sl sls st (fetch_slot pong wanted (i + 1) sls st) refl found))
]

-- What a search from place 0 on gives, with the replica at the place it finds.
abbrev Result : Option Bytes → List Slot → Lists → Option (Option ℕ × Lists) → Type 0
Result goal sls st m =
    (d : Option ℕ) × (((m ≡ some (none, record st { dlist = d })) × (goal ≡ none))
      ⊎ ((j : ℕ) × (dn : Bytes) × (m ≡ some (some j, record st { dlist = d }))
          × (goal ≡ some dn)
          × (replica_at sls j ≡ some dn)))

search-Result :
    (goal : Option Bytes) (sls : List Slot) (st : Lists) (m : Option (Option ℕ × Lists))
    → Finds goal 0 sls st m
    → Result goal sls st m
search-Result goal sls st m (o, d, r, inl (missed, nothing)) = (d, inl (rw missed at r, nothing))
search-Result goal sls st m (o, d, r, inr (j, hit, something, at)) = elim (Option-cases goal) [
  | inl e ↦ absurd (something e)
  | inr (dn, e) ↦ (
    d,
    inr (
      j,
      dn,
      r ∙ ap (λ o1. some (o1, record st { dlist = d })) (hit ∙ ap some (omega arith)),
      e,
      at ∙ e,
    ),
  )
]

-- The two searches of getfiledn, as replica_of makes them.
replica_of-Result :
    (pong : Pong) (f : Filelist) (st : Lists)
    → Result (answering pong (λ rep. rep == 1) f.slots) f.slots st (get_repfetchnum pong f st)
    → ((d : Option ℕ)
        → Result
            (answering pong (λ rep. ltb 1 rep) f.slots)
            f.slots
            (record st { dlist = d })
            (get_repfetchnum1 pong f (record st { dlist = d })))
    → (d : Option ℕ) × (replica_of pong f st
        ≡ some (file_replica pong f.slots, record st { dlist = d }))
unfolding replica_of
replica_of-Result pong f st (d, inl (r, nothing)) second =
    let (d2, found) = second d in
    elim found [
      | inl (r2, nothing2) ↦ (d2, rw (file_replica, r, nothing, r2, nothing2))
      | inr (j, dn, r2, something, at) ↦ (d2, rw (file_replica, r, nothing, r2, something, at))
    ]
replica_of-Result pong f st (d, inr (j, dn, r, something, at)) second =
    (d, rw (file_replica, r, something, at))

pub replica_of-file_replica :
    (pong : Pong) (f : Filelist) (st : Lists)
    → IsPlaced st.datanodes f.slots
    → (d : Option ℕ) × (replica_of pong f st
        ≡ some (file_replica pong f.slots, record st { dlist = d }))
unfolding get_repfetchnum get_repfetchnum1
replica_of-file_replica pong f st placed =
    replica_of-Result pong f st
      (search-Result _ f.slots st _
        (fetch_slot-Finds pong (λ rep. rep == 1) 0 f.slots st (λ rep h. ground arith) placed))
      (λ d.
        search-Result _ f.slots (record st { dlist = d }) _
          (fetch_slot-Finds pong (λ rep. ltb 1 rep) 0 f.slots (record st { dlist = d })
            (λ rep h. ground arith) placed))

-- For a listed file of well-formed lists, getfiledn returns, gives a replica in step whose datanode
-- answers if there is one, else any replica whose datanode answers, else NULL, and changes `dlist` only.
pub getfiledn-file_replica :
    (pong : Pong) (c : ℕ) (name host : Bytes) (st : Lists) (i : ℕ) (f : Filelist)
    → IsWellFormed st.datanodes st.files
    → find_file 0 (c ∷ name) st.files ≡ some i
    → get_elem? st.files i ≡ some f
    → (d : Option ℕ) × (getfiledn pong (c ∷ name) host st
        ≡ some (file_replica pong f.slots, record st { dlist = d }))
unfolding getfiledn filelist_search
getfiledn-file_replica pong c name host st i f formed listed at =
    let (d, r) = replica_of-file_replica pong f st (All-get _ st.files i formed at) in
    (d, rw (listed, at, r))
