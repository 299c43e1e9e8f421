-- ===== src/Registry/Names.antt =====
-- Datanodes under distinct names: what enter_node and fetch_datanode of list.c do to the names.
use dsproj.Common.{
  ℕ, zero, suc, ◌+◌, ◌≡◌, refl, sym, ap, ◌∙◌, subst, eq_ℤ, pos, ℤ, Bool-cases, inl, inr, Option,
  none, some, List, [], ◌∷◌, ◌++◌, map, append_assoc, append-nil, if◌then◌else◌, Option-cases,
}
use dsproj.Text.{Bytes, same}
use dsproj.Registry.{Datanode, Pong, find_node, set_alive, enter_node, check_nodealive}
use dsproj.Registry.Locate.{first_alive}
use dsproj.Registry.Reload.{IsDistinct, node_of, map-node_of}

-- The search by name in the list of the names alone.
find_name : ℕ → Bytes → List Bytes → Option ℕ
find_name i name [] = none
find_name i name (n ∷ ns) = if same n name then some i else find_name (i + 1) name ns

find_node-names :
    (i : ℕ) (name : Bytes) (dns : List Datanode)
    → find_node i name dns ≡ find_name i name (map node_of dns)
unfolding find_name
find_node-names i name [] = refl
find_node-names i name (dn ∷ dns) = rw (find_node-names (i + 1) name dns) refl

-- No name stands twice.
pub IsDistinctNames : List Bytes → List Bytes → Type 0
IsDistinctNames old [] = Unit
IsDistinctNames old (n ∷ ns) = (find_name 0 n old ≡ none) × IsDistinctNames (old ++ n ∷ []) ns

-- The datanodes' names are distinct.
abbrev pub IsUnique : List Datanode → Type 0
IsUnique dns = IsDistinctNames [] (map node_of dns)

pub nil-IsUnique : IsUnique []
unfolding IsDistinctNames
nil-IsUnique = tt

names-IsDistinct :
    (old dns : List Datanode)
    → IsDistinctNames (map node_of old) (map node_of dns)
    → IsDistinct old dns
unfolding IsDistinctNames
names-IsDistinct old [] h = tt
names-IsDistinct old (dn ∷ dns) (new, h) = (
  find_node-names 0 dn.node old ∙ new,
  names-IsDistinct (old ++ dn ∷ []) dns
      (subst (λ ns. IsDistinctNames ns (map node_of dns)) (map-node_of old dn) h),
)

pub IsUnique-IsDistinct : (dns : List Datanode) → IsUnique dns → IsDistinct [] dns
IsUnique-IsDistinct dns h = names-IsDistinct [] dns h

snoc-IsDistinctNames :
    (old ns : List Bytes) (n : Bytes)
    → IsDistinctNames old ns
    → find_name 0 n (old ++ ns) ≡ none
    → IsDistinctNames old (ns ++ n ∷ [])
unfolding IsDistinctNames
snoc-IsDistinctNames old [] n h new = (subst (λ l. find_name 0 n l ≡ none) (append-nil old) new, tt)
snoc-IsDistinctNames old (m ∷ ns) n (first, h) new = (
  first,
  snoc-IsDistinctNames (old ++ m ∷ []) ns n h
      (subst (λ l. find_name 0 n l ≡ none) (sym (append_assoc old (m ∷ []) ns)) new),
)

names-set_alive :
    (alive : ℤ) (i : ℕ) (dns : List Datanode)
    → map node_of (set_alive alive i dns) ≡ map node_of dns
names-set_alive alive i [] = refl
names-set_alive alive zero (dn ∷ dns) = refl
names-set_alive alive (suc i) (dn ∷ dns) = ap (λ l. dn.node ∷ l) (names-set_alive alive i dns)

-- Entering a datanode as datanode_insert does keeps the names distinct.
pub enter_node-IsUnique :
    (dn : Datanode) (dns : List Datanode)
    → IsUnique dns
    → IsUnique (enter_node (find_node 0 dn.node dns) dn dns)
enter_node-IsUnique dn dns h = elim (Option-cases (find_node 0 dn.node dns)) [
  | inl new ↦ rw new (
      subst (IsDistinctNames []) (map-node_of dns dn) (
        snoc-IsDistinctNames [] (map node_of dns) dn.node h
          (sym (find_node-names 0 dn.node dns) ∙ new)))
  | inr (i, known) ↦ rw known (subst (IsDistinctNames []) (sym (names-set_alive (pos 1) i dns)) h)
]

names-first_alive :
    (pong : Pong) (i : ℕ) (dns : List Datanode)
    → map node_of (first_alive pong i dns).1 ≡ map node_of dns
unfolding first_alive
names-first_alive pong i [] = refl
names-first_alive pong i (dn ∷ dns) = elim (Bool-cases (eq_ℤ dn.alive (pos 0))) [
  | inl dead ↦ rw dead (ap (λ l. dn.node ∷ l) (names-first_alive pong (i + 1) dns))
  | inr live ↦ elim (Bool-cases (check_nodealive pong dn.node)) [
    | inl answers ↦ rw (live, answers) refl
    | inr silent ↦ rw (live, silent) (ap (λ l. dn.node ∷ l) (names-first_alive pong (i + 1) dns))
  ]
]

pub first_alive-IsUnique :
    (pong : Pong) (i : ℕ) (dns : List Datanode) → IsUnique dns → IsUnique (first_alive pong i dns).1
first_alive-IsUnique pong i dns h =
    subst (IsDistinctNames []) (sym (names-first_alive pong i dns)) h
