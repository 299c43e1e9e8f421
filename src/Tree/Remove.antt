-- ===== src/Tree/Remove.antt =====
-- The removal of files and folders from the tree: removefile and removefold of dd.c.
use dsproj.Common.{
  ℕ, suc, ◌≡◌, refl, ◌==◌, Option-cases, inl, inr, if◌then◌else◌, Option, none, some, zero, [], ◌∷◌,
  ◌++◌, replicate, ◌>>=◌, set,
}
use dsproj.Text.{Bytes}
use dsproj.Tree.{Node, Tree, Pointer, node_at, store, search, Info, max_path, onto}

-- A pointer that may be DNULL, where the code goes on with the node.
abbrev not_null : Pointer → Option ℕ
not_null p = p

-- The node of the path is taken out of the list it stands in; its place and what stood there.
unlink : ℕ → Tree → Bytes → Bytes → Option (ℕ × Node × Tree)
unlink fuel t unset vpath = search fuel t unset vpath >>= λ found. not_null found >>= λ a.
    node_at t (some a) >>= λ tnode. not_null tnode.prev >>= λ p. node_at t (some p) >>= λ prev.
    let skipped =
      if prev.info.dflag == 1
      then record prev { fold = tnode.next }
      else record prev { next = tnode.next } in
    let t1 = store t p skipped in
    not_null tnode.next >>= λ b.
    node_at t1 (some b) >>= λ next. some (a, tnode, store t1 b (record next { prev = some p }))

pub removefile : ℕ → Tree → Bytes → Bytes → Option Tree
unfolding unlink
removefile fuel t unset vpath =
    unlink fuel t unset vpath >>= λ (a, tnode, t2). some (record t2 { nodes = set t2.nodes a none })

-- What removefold still has to do: a path, or the entries of a folder from a node on.
data Job : Type 0 where
  at_path : Bytes → Job
  from_node : ℕ → Job

-- The array loc of a node that addfile or addfolder made: zeros behind the string.
abbrev loc_array : Info → Bytes
loc_array info = onto (replicate max_path 0) (info.loc ++ 0 ∷ [])

-- removefold with its loop, on fuel: each entry is removed by its field loc, and the next one is the one
-- that stood behind it before. The folder itself is not freed.
remove_job : ℕ → Tree → Bytes → Job → Option Tree
unfolding removefile
remove_job zero t unset job = none
remove_job (suc fuel) t unset (at_path vpath) = unlink fuel t unset vpath >>= λ (a, tnode, t2).
    not_null tnode.fold >>= λ temp. remove_job fuel t2 unset (from_node temp)
remove_job (suc fuel) t unset (from_node temp) = node_at t (some temp) >>= λ n.
    let folder = remove_job fuel t unset (at_path (loc_array n.info)) in
    let removed =
      if n.info.dflag == 1 then folder else removefile fuel t unset (loc_array n.info) in
    elim n.next [
      | none ↦ removed
      | some b ↦ removed >>= λ t1. remove_job fuel t1 unset (from_node b)
    ]

pub removefold : ℕ → Tree → Bytes → Bytes → Option Tree
unfolding remove_job
removefold fuel t unset vpath = remove_job fuel t unset (at_path vpath)

-- The entry before the removed one, behind the removal.
abbrev skipping : Node → Pointer → Node
skipping prev next =
    if prev.info.dflag == 1 then record prev { fold = next } else record prev { next = next }

module _ (fuel : ℕ) (t : Tree) (unset vpath : Bytes) (a p : ℕ) (tnode prev : Node)
    (found : search fuel t unset vpath ≡ some (some a)) (at : node_at t (some a) ≡ some tnode)
    (before : tnode.prev ≡ some p) (at_p : node_at t (some p) ≡ some prev) where
  unlink-last : tnode.next ≡ none → unlink fuel t unset vpath ≡ none
  unfolding unlink
  unlink-last last = rw (found, at, before, at_p, last) refl

  unlink-empty :
      tnode.fold ≡ none
      → (unlink fuel t unset vpath >>= λ u.
          not_null u.1.fold >>= λ temp. remove_job fuel u.2 unset (from_node temp))
        ≡ none
  unfolding unlink
  unlink-empty empty = elim (Option-cases tnode.next) [
    | inl last ↦ rw (found, at, before, at_p, last) refl
    | inr (b, behind) ↦
        elim (Option-cases (node_at (store t p (skipping prev tnode.next)) (some b))) [
          | inl freed ↦ rw (found, at, before, at_p, behind) (rw (rw behind at freed) refl)
          | inr (next, at_b) ↦
              rw (found, at, before, at_p, behind) (rw (rw behind at at_b, empty) refl)
        ]
  ]

  -- The last entry of a folder cannot be removed, nor a folder without entries: the search finds the
  -- entry, which has one before it, but removefile, if none stands behind it, and removefold,
  -- if none stands behind it or none below it, go through DNULL.
  pub removefold_stuck :
      (tnode.next ≡ none
        → (removefile fuel t unset vpath ≡ none) × (removefold (suc fuel) t unset vpath ≡ none))
      × (tnode.fold ≡ none → removefold (suc fuel) t unset vpath ≡ none)
  unfolding removefile removefold remove_job
  removefold_stuck = (
    λ last. (rw (unlink-last last) refl, rw (unlink-last last) refl),
    λ empty. unlink-empty empty,
  )
