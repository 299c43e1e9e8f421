-- ===== src/Registry/Locate.antt =====
-- Where a file is: fetch_datanode, getRepfetchnum and getfiledn of list.c.
use dsproj.Common.{
  ℕ, ◌+◌, pos, eq_ℤ, Bool, ltb, ◌==◌, if◌then◌else◌, Option, none, some, List, [], ◌∷◌, get_elem?,
  ◌>>=◌,
}
use dsproj.Text.{Bytes}
use dsproj.Registry.{
  Datanode, Slot, Filelist, Lists, Pong, check_nodealive, datanode_search, filelist_search,
  datanode_filewrite,
}

-- The walk for a datanode that answers: its number, and the list in which every node that was thought
-- alive and did not answer is marked dead.
unfoldable pub first_alive : Pong → ℕ → List Datanode → Option ℕ × List Datanode
first_alive pong i [] = (none, [])
first_alive pong i (dn ∷ dns) =
    let (found, rest) = first_alive pong (i + 1) dns in
    if eq_ℤ dn.alive (pos 0)
    then (found, dn ∷ rest)
    else if check_nodealive pong dn.node
    then (some i, dn ∷ dns)
    else (found, record dn { alive = pos 0 } ∷ rest)

-- When the walk stops at a node, `dlist` points to it; the list is then written to the file, and the
-- value of `dlist` behind that is returned. On an empty list nothing is written.
unfoldable pub fetch_datanode : Pong → Lists → Option (Option ℕ × Lists)
fetch_datanode pong st = elim st.datanodes [
  | [] ↦ some (none, record st { dlist = none })
  | dn ∷ dns ↦ do
    let (found, marked) = first_alive pong 0 (dn ∷ dns)
    st1 ← datanode_filewrite (record st { datanodes = marked; dlist = found })
    some (elim found [ none ↦ none | some i ↦ st1.dlist ], st1)
]

-- The first place with such a `rep` whose datanode answers. A replica on a datanode that is not in the
-- list is read through NULL.
unfoldable pub fetch_slot : Pong → (ℕ → Bool) → ℕ → List Slot → Lists → Option (Option ℕ × Lists)
fetch_slot pong wanted i [] st = some (none, st)
fetch_slot pong wanted i (sl ∷ sls) st =
    let rest = fetch_slot pong wanted (i + 1) sls in
    let (found, st1) = datanode_search sl.replica st in
    let tried : Option (Option ℕ × Lists) = do
      k ← found
      dn ← get_elem? st1.datanodes k
      if check_nodealive pong dn.node then some (some i, st1) else rest st1
    in if wanted sl.rep then tried else rest st

unfoldable pub get_repfetchnum : Pong → Filelist → Lists → Option (Option ℕ × Lists)
get_repfetchnum pong f = fetch_slot pong (λ rep. rep == 1) 0 f.slots

unfoldable pub get_repfetchnum1 : Pong → Filelist → Lists → Option (Option ℕ × Lists)
get_repfetchnum1 pong f = fetch_slot pong (λ rep. ltb 1 rep) 0 f.slots

-- The node of a pointer that fetch_datanode returned.
abbrev pub node_at : Option ℕ → List Datanode → Option Bytes
node_at none dns = none
node_at (some i) dns = elim (get_elem? dns i) [ none ↦ none | some dn ↦ some dn.node ]

abbrev pub replica_at : List Slot → ℕ → Option Bytes
replica_at sls i = elim (get_elem? sls i) [ none ↦ none | some sl ↦ some sl.replica ]

-- The second search is made only if the first finds nothing.
unfoldable pub replica_of : Pong → Filelist → Lists → Option (Option Bytes × Lists)
replica_of pong f st = do
  (first, st1) ← get_repfetchnum pong f st
  let again : Option (Option Bytes × Lists) = do
    (second, st2) ← get_repfetchnum1 pong f st1
    some (elim second [ none ↦ none | some i ↦ replica_at f.slots i ], st2)
  elim first [ none ↦ again | some i ↦ some (replica_at f.slots i, st1) ]

-- The datanode for a file: one with a replica of it, or any for a name that is not listed. `host` is
-- not used.
unfoldable pub getfiledn : Pong → Bytes → Bytes → Lists → Option (Option Bytes × Lists)
getfiledn pong name host st = do
  found ← filelist_search name st
  elim found [
    | none ↦ do (dn, st1) ← fetch_datanode pong st; some (node_at dn st1.datanodes, st1)
    | some i ↦ do f ← get_elem? st.files i; replica_of pong f st
  ]
