-- ===== src/Tree/Store/Order.antt =====
-- The nodes of the tree in the order in which recursestore writes them.
use dsproj.Common.{
  All, ℕ, zero, suc, ◌+◌, ◌≤◌, ◌≡◌, refl, sym, ◌∙◌, ap, arith, Option, none, some, List, [], ◌∷◌,
  ◌++◌, map, append_assoc, append-nil,
}
use dsproj.Text.{Bytes, codes}
use dsproj.RoundTrip.Buffer.{within-fits}
use dsproj.Tree.{Info, Node, Tree, Pointer, node_at}
use dsproj.Tree.Store.{node_text, recursestore, words}
use dsproj.Tree.Store.Line.{IsPlainInfo, word_of, words-node}

-- The data of the nodes from a pointer on: the node, those below it, those behind it.
pub data Listing (t : Tree) : Pointer → List Info → Type 0 where
  nowhere : Listing t none []
  node_then :
      (a : ℕ) (n : Node) (below behind : List Info)
      → node_at t (some a) ≡ some n
      → Listing t n.fold below
      → Listing t n.next behind
      → Listing t (some a) (n.info ∷ (below ++ behind))

-- What recursestore writes from a pointer on, if it is not DNULL.
abbrev store_from : ℕ → Tree → Pointer → Option Bytes
store_from fuel t p = elim p [ none ↦ some [] | some a ↦ recursestore fuel t (some a) ]

All-split : {A : Type 0} (P : A → Type 0) (xs ys : List A) → All P (xs ++ ys) → All P xs × All P ys
All-split P [] ys h = (tt, h)
All-split P (x ∷ xs) ys (hx, h) = let (l, r) = All-split P xs ys h in ((hx, l), r)

map-append : {A B : Type 0} (f : A → B) (xs ys : List A) → map f (xs ++ ys) ≡ map f xs ++ map f ys
map-append f [] ys = refl
map-append f (x ∷ xs) ys = ap (λ r. f x ∷ r) (map-append f xs ys)

stored_step :
    (fuel : ℕ) (t : Tree) (a : ℕ) (n : Node) (text_below text_behind : Bytes)
    → IsPlainInfo n.info
    → node_at t (some a) ≡ some n
    → store_from fuel t n.fold ≡ some text_below
    → store_from fuel t n.next ≡ some text_behind
    → recursestore (suc fuel) t (some a)
      ≡ some (node_text n.info (codes "ENDD\n") ++ (text_below ++ text_behind))
unfolding recursestore
stored_step fuel t a n text_below text_behind plain at below behind =
    rw (at, below, behind, within-fits 1000 (node_text n.info (codes "ENDD\n")) plain.line_fits)
      refl

-- Fuel enough for the writing, and the words that are read back.
abbrev Stored : Tree → Pointer → List Info → ℕ → Type 0
Stored t p infos enough =
    (fuel : ℕ)
    → enough ≤ fuel
    → (text : Bytes) × (store_from fuel t p ≡ some text)
      × ((rest : Bytes) → words (text ++ rest) ≡ map word_of infos ++ words rest)

stored_node :
    (t : Tree) (a : ℕ) (n : Node) (below behind : List Info) (eb en : ℕ)
    → IsPlainInfo n.info
    → node_at t (some a) ≡ some n
    → Stored t n.fold below eb
    → Stored t n.next behind en
    → Stored t (some a) (n.info ∷ (below ++ behind)) (suc (eb + en))
stored_node t a n below behind eb en plain at sb sn zero e = absurd (omega arith)
stored_node t a n below behind eb en plain at sb sn (suc fuel) e =
    let (text_below, wb, words_below) = sb fuel (omega arith) in
    let (text_behind, wn, words_behind) = sn fuel (omega arith) in
    let line = node_text n.info (codes "ENDD\n") in
    (
      line ++ (text_below ++ text_behind),
      stored_step fuel t a n text_below text_behind plain at wb wn,
      λ rest.
          (ap words (append_assoc line (text_below ++ text_behind) rest)
            ∙ words-node n.info ((text_below ++ text_behind) ++ rest) plain
            ∙ ap (λ r. word_of n.info ∷ words r) (append_assoc text_below text_behind rest)
            ∙ ap (λ r. word_of n.info ∷ r)
                (words_below (text_behind ++ rest)
                  ∙ ap (λ r. map word_of below ++ r) (words_behind rest)
                  ∙ sym (append_assoc (map word_of below) (map word_of behind) (words rest))
                  ∙ ap (λ r. r ++ words rest) (sym (map-append word_of below behind)))),
    )

stored :
    (t : Tree) {p : Pointer} {infos : List Info}
    → Listing t p infos
    → All IsPlainInfo infos
    → (enough : ℕ) × Stored t p infos enough
stored t nowhere h = (0, λ fuel e. ([], refl, λ rest. refl))
stored t (node_then a n below behind at lb ln) (plain, h) =
    let (hb, hn) = All-split IsPlainInfo below behind h in
    let (eb, sb) = stored t lb hb in
    let (en, sn) = stored t ln hn in
    (suc (eb + en), stored_node t a n below behind eb en plain at sb sn)

-- The node's data in the order of the walk, from a node on, are what the lines hold: for a tree whose
-- data have plain texts and short numbers, recursestore ends, given fuel enough, and the words
-- of its text are the lines of these nodes in this order, each of which reads back as the node's data.
pub recursestore-words :
    (t : Tree) (a : ℕ) (infos : List Info)
    → Listing t (some a) infos
    → All IsPlainInfo infos
    → (enough : ℕ) × ((fuel : ℕ)
        → enough ≤ fuel
        → (text : Bytes) × (recursestore fuel t (some a) ≡ some text)
          × (words text ≡ map word_of infos))
unfolding words
recursestore-words t a infos listing h =
    let (enough, all_stored) = stored t listing h in
    (
      enough,
      λ fuel e.
          (let (text, written, read) = all_stored fuel e in
            (
              text,
              written,
              ap words (sym (append-nil text)) ∙ read [] ∙ append-nil (map word_of infos),
            )),
    )
