-- ===== src/Tree/Store/Chain.antt =====
-- The files of "home" as a chain of nodes, and what addnode makes of it.
use dsproj.Common.{
  ap, append-nil, ℕ, zero, suc, ◌≤◌, ◌<◌, ◌≡◌, ◌≢◌, refl, sym, subst, arith, ==_false, none, some,
  List, [], ◌∷◌, ◌++◌, length, get_elem?, Option-cases, inl, inr,
}
use dsproj.Text.{Bytes}
use dsproj.Tree.{Info, Node, Tree, Pointer, node_at, last_of, search, searchlast, addnode}
use dsproj.Tree.Heap.{grown, grown-linked, grown-other, grown-new}
use dsproj.Tree.Add.{entered}
use dsproj.Tree.Store.Order.{Listing, nowhere, node_then}

-- From the node at `b` on, `next` leads through nodes with these data to the node `m` at `c`; none of
-- them has nodes below it.
pub data Chain (t : Tree) (c : ℕ) (m : Node) : ℕ → List Info → Type 0 where
  tail : node_at t (some c) ≡ some m → m.next ≡ none → m.fold ≡ none → Chain t c m c (m.info ∷ [])
  link :
      (b b' : ℕ) (n : Node) (infos : List Info)
      → c ≢ b
      → node_at t (some b) ≡ some n
      → n.fold ≡ none
      → n.next ≡ some b'
      → Chain t c m b' infos
      → Chain t c m b (n.info ∷ infos)

pub Chain-end :
    (t : Tree) (c : ℕ) (m : Node) {b : ℕ} {infos : List Info}
    → Chain t c m b infos
    → (node_at t (some c) ≡ some m) × (m.next ≡ none) × (m.fold ≡ none)
Chain-end t c m (tail e n f) = (e, n, f)
Chain-end t c m (link b b' n infos ne e f h r) = Chain-end t c m r

pub last_of-Chain :
    (t : Tree) (c : ℕ) (m : Node) {b : ℕ} {infos : List Info}
    → Chain t c m b infos
    → (fuel : ℕ) → length infos ≤ fuel
    → last_of fuel t b ≡ some c
unfolding last_of
last_of-Chain t c m (tail e n f) zero enough = absurd (omega arith)
last_of-Chain t c m (tail e n f) (suc fuel) enough = rw (e, n) refl
last_of-Chain t c m (link b b' n infos ne e f h r) zero enough = absurd (omega arith)
last_of-Chain t c m (link b b' n infos ne e f h r) (suc fuel) enough =
    rw (e, h) (last_of-Chain t c m r fuel (omega arith))

-- From a pointer on, `next` leads through nodes with these data and no others; none of them has nodes
-- below it.
pub data Row (t : Tree) : Pointer → List Info → Type 0 where
  row_end : Row t none []
  row_node :
      (b : ℕ) (n : Node) (infos : List Info)
      → node_at t (some b) ≡ some n
      → n.fold ≡ none
      → Row t n.next infos
      → Row t (some b) (n.info ∷ infos)

-- At the pointer is a node with these data and none behind it, and the row stands below it.
abbrev pub IsFolderOf : Tree → Pointer → Info → List Info → Type 0
IsFolderOf t p info infos =
    (a : ℕ) × (top : Node) × (p ≡ some a)
    × (node_at t (some a) ≡ some top)
    × (top.info ≡ info)
    × (top.next ≡ none)
    × Row t top.fold infos

pub Chain-Row :
    (t : Tree) (c : ℕ) (m : Node) {b : ℕ} {infos : List Info}
    → Chain t c m b infos
    → Row t (some b) infos
Chain-Row t c m (tail e n f) = row_node c m [] e f (subst (λ p. Row t p []) (sym n) row_end)
Chain-Row t c m (link b b' n infos ne e f h r) =
    row_node b n infos e f (subst (λ p. Row t p infos) (sym h) (Chain-Row t c m r))

Row-Listing : (t : Tree) {p : Pointer} {infos : List Info} → Row t p infos → Listing t p infos
Row-Listing t row_end = nowhere
Row-Listing t (row_node b n infos at leaf row) =
    node_then b n [] infos at (subst (λ p. Listing t p []) (sym leaf) nowhere) (Row-Listing t row)

-- What recursestore writes of a folder of files.
pub IsFolderOf-Listing :
    (t : Tree) (a : ℕ) (info : Info) (infos : List Info)
    → IsFolderOf t (some a) info infos
    → Listing t (some a) (info ∷ infos)
IsFolderOf-Listing t a info infos (b, top, same, at, same_info, last, row) =
    subst (λ p. Listing t p (info ∷ infos)) (sym same)
      (subst (λ xs. Listing t (some b) xs) (ap (λ r. info ∷ r) (append-nil infos))
        (subst (λ i. Listing t (some b) (i ∷ (infos ++ []))) same_info
          (node_then b top infos [] at (Row-Listing t row)
            (subst (λ p. Listing t p []) (sym last) nowhere))))

get-lt : {A : Type 0} (xs : List A) (i : ℕ) {x : A} → get_elem? xs i ≡ some x → i < length xs
get-lt [] i e = cc
get-lt (x ∷ xs) zero e = omega arith
get-lt (x ∷ xs) (suc i) e = omega (arith, get-lt xs i e)

-- A place with a node is not the fresh one.
pub node_at-lt : (t : Tree) (b : ℕ) {n : Node} → node_at t (some b) ≡ some n → b < length t.nodes
node_at-lt t b e = elim (Option-cases (get_elem? t.nodes b)) [
  | inl q ↦ absurd (cc)
  | inr (o, q) ↦ get-lt t.nodes b q
]

-- A node is entered behind the end of the chain.
pub Chain-grown :
    (t : Tree) (c : ℕ) (m newnode : Node) {b : ℕ} {infos : List Info}
    → Chain t c m b infos
    → newnode.next ≡ none
    → newnode.fold ≡ none
    → Chain
        (grown t c (record m { next = some (length t.nodes) }) newnode)
        (length t.nodes)
        newnode
        b
        (infos ++ newnode.info ∷ [])
Chain-grown t c m newnode (tail e n f) none_next none_fold =
    let linked = record m { next = some (length t.nodes) } in
    link c (length t.nodes) linked (newnode.info ∷ [])
      (λ same. (let below = node_at-lt t c e in absurd (omega arith)))
      (grown-linked t c linked newnode e) f refl
      (tail (grown-new t c linked newnode e) none_next none_fold)
Chain-grown t c m newnode (link b b' n infos ne e f h r) none_next none_fold =
    let linked = record m { next = some (length t.nodes) } in
    link b b' n (infos ++ newnode.info ∷ [])
      (λ same. (let below = node_at-lt t b e in absurd (omega arith)))
      (grown-other t c linked newnode (Chain-end t c m r).0 b ne e) f h
      (Chain-grown t c m newnode r none_next none_fold)

-- The first entry of a folder.
pub addnode-first :
    (t : Tree) (unset vpath : Bytes) (vdata : Info) (a fuel : ℕ) (r : Node)
    → search fuel t unset vpath ≡ some (some a)
    → node_at t (some a) ≡ some r
    → r.fold ≡ none
    → r.info.dflag ≡ 1
    → addnode fuel t unset vpath vdata
      ≡ some (
        length t.nodes,
        grown t a (record r { fold = some (length t.nodes) }) (entered t a r vdata),
      )
unfolding addnode searchlast
addnode-first t unset vpath vdata a fuel r found at fold folder =
    rw (found, at, fold, at, folder) refl

pub addnode_behind :
    (t : Tree) (unset vpath : Bytes) (vdata : Info) (a b c fuel : ℕ) (r m : Node)
    {infos : List Info}
    → search fuel t unset vpath ≡ some (some a)
    → node_at t (some a) ≡ some r
    → r.fold ≡ some b
    → Chain t c m b infos
    → length infos ≤ fuel
    → m.info.dflag ≢ 1
    → addnode fuel t unset vpath vdata
      ≡ some (
        length t.nodes,
        grown t c (record m { next = some (length t.nodes) }) (entered t c m vdata),
      )
unfolding addnode searchlast
addnode_behind t unset vpath vdata a b c fuel r m found at fold chain enough file =
    rw
      (
        found,
        at,
        fold,
        last_of-Chain t c m chain fuel enough,
        (Chain-end t c m chain).0,
        ==_false m.info.dflag 1 file,
      )
      refl
