-- ===== src/Registry/Known.antt =====
-- Datanodes that a search by name finds (datanode_search of list.c).
use dsproj.Common.{
  ℕ, zero, suc, ◌+◌, ◌≡◌, inl, inr, refl, ◌∙◌, subst, arith, ℤ, pos, true, ◌==◌, Option, none, some,
  List, [], ◌∷◌, ◌++◌, length, get_elem?, Bool-cases, Option-cases,
}
use dsproj.Text.{Bytes, same}
use dsproj.Registry.{Datanode, find_node, set_alive, enter_node}
use dsproj.Registry.Insert.{same_refl}

==-eq : (m n : ℕ) → (m == n) ≡ true → m ≡ n
==-eq m n h = ground arith

pub same-eq : (s t : Bytes) → same s t ≡ true → s ≡ t
same-eq [] [] h = refl
same-eq [] (d ∷ t) h = cc
same-eq (c ∷ s) [] h = cc
same-eq (c ∷ s) (d ∷ t) h = elim (Bool-cases (c == d)) [
  | inl e ↦ (let tail = same-eq s t (rw e at h) in rw (==-eq c d e, tail))
  | inr e ↦ absurd (ground arith)
]

abbrev pub IsKnown : List Datanode → Bytes → Type 0
IsKnown dns name = (k : ℕ) × (find_node 0 name dns ≡ some k)

-- The datanode that is found has that name.
pub find_node_sound :
    (i k : ℕ) (name : Bytes) (dns : List Datanode)
    → find_node i name dns ≡ some k
    → (j : ℕ) × (dn : Datanode) × (k ≡ i + j) × (get_elem? dns j ≡ some dn) × (dn.node ≡ name)
find_node_sound i k name [] h = cc
find_node_sound i k name (dn ∷ dns) h = elim (Bool-cases (same dn.node name)) [
  | inl here ↦ (0, dn, ground arith, refl, same-eq dn.node name here)
  | inr later ↦
      (let (j, g, e, at, named) = find_node_sound (i + 1) k name dns (rw later at h) in
        (suc j, g, omega arith, at, named))
]

find_node_append :
    (i k : ℕ) (name : Bytes) (dns more : List Datanode)
    → find_node i name dns ≡ some k
    → find_node i name (dns ++ more) ≡ some k
find_node_append i k name [] more h = cc
find_node_append i k name (dn ∷ dns) more h =
    ground (arith, find_node_append (i + 1) k name dns more)

find_node_new :
    (i : ℕ) (dn : Datanode) (dns : List Datanode)
    → find_node i dn.node dns ≡ none
    → find_node i dn.node (dns ++ dn ∷ []) ≡ some (i + length dns)
find_node_new i dn [] h = ground (arith, same_refl dn.node)
find_node_new i dn (d ∷ dns) h = ground (arith, find_node_new (i + 1) dn dns)

find_node-set_alive :
    (i j : ℕ) (alive : ℤ) (name : Bytes) (dns : List Datanode)
    → find_node i name (set_alive alive j dns) ≡ find_node i name dns
find_node-set_alive i j alive name [] = refl
find_node-set_alive i zero alive name (dn ∷ dns) = refl
find_node-set_alive i (suc j) alive name (dn ∷ dns) =
    ground (arith, find_node-set_alive (i + 1) j alive name dns)

-- A registration keeps the known datanodes.
pub enter_node-IsKnown :
    (found : Option ℕ) (dn : Datanode) (dns : List Datanode) (name : Bytes)
    → IsKnown dns name
    → IsKnown (enter_node found dn dns) name
enter_node-IsKnown none dn dns name (k, h) = (k, find_node_append 0 k name dns (dn ∷ []) h)
enter_node-IsKnown (some i) dn dns name (k, h) = (k, find_node-set_alive 0 i (pos 1) name dns ∙ h)

-- A registered datanode is known.
pub enter_node_new :
    (dn : Datanode) (dns : List Datanode)
    → IsKnown (enter_node (find_node 0 dn.node dns) dn dns) dn.node
enter_node_new dn dns = elim (Option-cases (find_node 0 dn.node dns)) [
  | inl new ↦ (0 + length dns, rw (new, enter_node, find_node_new 0 dn dns new))
  | inr (i, old) ↦ (i, rw (old, enter_node, find_node-set_alive 0 i (pos 1) dn.node dns, old))
]

pub find_node-get :
    (k : ℕ) (name : Bytes) (dns : List Datanode)
    → find_node 0 name dns ≡ some k
    → (dn : Datanode) × (get_elem? dns k ≡ some dn) × (dn.node ≡ name)
find_node-get k name dns h =
    let (j, dn, e, at, named) = find_node_sound 0 k name dns h in
    let j_k : j ≡ k = omega arith in (dn, subst (λ n. get_elem? dns n ≡ some dn) j_k at, named)
