-- ===== src/Tree/Heap.antt =====
-- The heap of dd.c when a node is changed and one more is entered at its end.
use dsproj.Common.{
  ℕ, zero, suc, ◌+◌, ◌≡◌, ◌≢◌, refl, sym, ap, ◌∙◌, Option-cases, inl, inr, some, ◌>>=◌, List, [],
  ◌∷◌, ◌++◌, length, get_elem?, set,
}
use dsproj.Tree.{Node, Tree, node_at}

module _ {A : Type 0} where
  pub get-set :
      (xs : List A) (i : ℕ) {x : A} (y : A)
      → get_elem? xs i ≡ some x
      → get_elem? (set xs i y) i ≡ some y
  get-set [] i y e = cc
  get-set (x ∷ xs) zero y e = refl
  get-set (x ∷ xs) (suc i) y e = get-set xs i y e

  pub get-set_other :
      (xs : List A) (i j : ℕ) (y : A) → i ≢ j → get_elem? (set xs i y) j ≡ get_elem? xs j
  get-set_other [] i j y h = refl
  get-set_other (x ∷ xs) zero zero y h = absurd (h refl)
  get-set_other (x ∷ xs) zero (suc j) y h = refl
  get-set_other (x ∷ xs) (suc i) zero y h = refl
  get-set_other (x ∷ xs) (suc i) (suc j) y h = get-set_other xs i j y (λ e. h (ap suc e))

  get-append :
      (xs ys : List A) (i : ℕ) {x : A} → get_elem? xs i ≡ some x → get_elem? (xs ++ ys) i ≡ some x
  get-append [] ys i e = cc
  get-append (z ∷ xs) ys zero e = e
  get-append (z ∷ xs) ys (suc i) e = get-append xs ys i e

  pub get-end : (xs : List A) (x : A) → get_elem? (xs ++ x ∷ []) (length xs) ≡ some x
  get-end [] x = refl
  get-end (z ∷ xs) x = get-end xs x

  length-set : (xs : List A) (i : ℕ) (y : A) → length (set xs i y) ≡ length xs
  length-set [] i y = refl
  length-set (x ∷ xs) zero y = refl
  length-set (x ∷ xs) (suc i) y = ap suc (length-set xs i y)

-- The heap with a node changed and one more at its end.
abbrev pub grown : Tree → ℕ → Node → Node → Tree
grown t c linked newnode = record t {
  nodes = set t.nodes c (some linked) ++ some newnode ∷ [];
  nodeno = t.nodeno + 1;
}

pub node-slot :
    (t : Tree) (a : ℕ) {n : Node}
    → node_at t (some a) ≡ some n
    → get_elem? t.nodes a ≡ some (some n)
node-slot t a e = elim (Option-cases (get_elem? t.nodes a)) [
  | inl q ↦ absurd (cc)
  | inr (o, q) ↦ q ∙ ap some (sym (ap (λ z. z >>= λ n. n) q) ∙ e)
]

module _ (t : Tree) (c : ℕ) {old : Node} (linked newnode : Node)
    (at : node_at t (some c) ≡ some old) where
  pub grown-linked : node_at (grown t c linked newnode) (some c) ≡ some linked
  grown-linked =
      rw
        (get-append (set t.nodes c (some linked)) (some newnode ∷ []) c
          (get-set t.nodes c (some linked) (node-slot t c at)))
        refl

  pub grown-other :
      (b : ℕ) {n : Node}
      → c ≢ b
      → node_at t (some b) ≡ some n
      → node_at (grown t c linked newnode) (some b) ≡ some n
  grown-other b ne e =
      rw
        (get-append (set t.nodes c (some linked)) (some newnode ∷ []) b
          (get-set_other t.nodes c b (some linked) ne ∙ node-slot t b e))
        refl

  pub grown-new : node_at (grown t c linked newnode) (some (length t.nodes)) ≡ some newnode
  grown-new =
      rw
        (ap (λ k. get_elem? (set t.nodes c (some linked) ++ some newnode ∷ []) k)
            (sym (length-set t.nodes c (some linked)))
          ∙ get-end (set t.nodes c (some linked)) (some newnode))
        refl
