-- ===== src/Tree/Add.antt =====
-- What addnode of dd.c does to the tree: a file that is entered below "home" is found again, and what
-- becomes of the entries of a folder that stands last.
use dsproj.Tree.Heap.{grown, grown-linked, grown-other, grown-new}
use dsproj.Common.{
  ℕ, zero, suc, ◌+◌, ◌≤◌, ◌<◌, ◌≡◌, ◌≢◌, refl, sym, subst, ap, arith, ==_false, none, some, [], ◌∷◌,
  ◌++◌, length,
}
use dsproj.Text.{Bytes}
use dsproj.Paths.{slash}
use dsproj.Dispatch.Request.{all_differ-Lacks}
use dsproj.RoundTrip.Buffer.{within-fits}
use dsproj.Tree.{
  Info, Node, Tree, Pointer, node_at, home, max_path, last_of, search, searchlast, addnode,
  addentry, addfile, entry, create_node,
}
use dsproj.Tree.Search.{IsListed, here, behind, Finds, last, down, path_text, IsName, search-Finds}

-- The list from a place on ends with the node `m` at `c`, and none of its entries has this name or is
-- called "home".
abbrev pub IsOther : Bytes → Node → Type 0
IsOther name n = (n.info.fname ≢ name) × (n.info.fname ≢ home)

pub data Ends (t : Tree) (name : Bytes) (c : ℕ) (m : Node) : ℕ → Type 0 where
  end : node_at t (some c) ≡ some m → m.next ≡ none → IsOther name m → Ends t name c m c
  more :
      (b b' : ℕ) (n : Node)
      → c ≢ b
      → node_at t (some b) ≡ some n
      → IsOther name n
      → n.next ≡ some b'
      → Ends t name c m b'
      → Ends t name c m b

steps : {t : Tree} {name : Bytes} {c : ℕ} {m : Node} {b : ℕ} → Ends t name c m b → ℕ
steps (end e h o) = 1
steps (more b b' n ne e o h r) = suc (steps r)

last_of-Ends :
    (t : Tree) (name : Bytes) (c : ℕ) (m : Node) {b : ℕ} (r : Ends t name c m b) (fuel : ℕ)
    → steps r ≤ fuel
    → last_of fuel t b ≡ some c
unfolding last_of steps
last_of-Ends t name c m (end e h o) zero enough = absurd (omega arith)
last_of-Ends t name c m (end e h o) (suc fuel) enough = rw (e, h) refl
last_of-Ends t name c m (more b b' n ne e o h r) zero enough = absurd (omega arith)
last_of-Ends t name c m (more b b' n ne e o h r) (suc fuel) enough =
    rw (e, h) (last_of-Ends t name c m r fuel (omega arith))

Ends-at :
    (t : Tree) (name : Bytes) (c : ℕ) (m : Node) {b : ℕ}
    → Ends t name c m b
    → node_at t (some c) ≡ some m
Ends-at t name c m (end e h o) = e
Ends-at t name c m (more b b' n ne e o h r) = Ends-at t name c m r

-- The node that addnode enters behind or below the node `m` at `c`.
abbrev pub entered : Tree → ℕ → Node → Info → Node
entered t c m vdata = record (create_node (record vdata { pno = m.info.nno; nno = t.nodeno + 1 })) {
  prev = some c;
}

abbrev pub behind_file : Tree → ℕ → Node → Info → Tree
behind_file t c m vdata =
    grown t c (record m { next = some (length t.nodes) }) (entered t c m vdata)

IsListed-grown :
    (t : Tree) (c : ℕ) (m : Node) (vdata : Info)
    → node_at t (some c) ≡ some m
    → {b : ℕ} → Ends t vdata.fname c m b
    → IsListed (behind_file t c m vdata) vdata.fname (length t.nodes) (some b)
IsListed-grown t c m vdata at (end e h o) =
    behind c (record m { next = some (length t.nodes) })
      (grown-linked t c (record m { next = some (length t.nodes) }) (entered t c m vdata) at) o.0
      (here (entered t c m vdata)
        (grown-new t c (record m { next = some (length t.nodes) }) (entered t c m vdata) at) refl)
IsListed-grown t c m vdata at (more b b' n ne e o h r) =
    behind b n
      (grown-other t c (record m { next = some (length t.nodes) }) (entered t c m vdata) at b ne e)
      o.0
      (subst (λ p. IsListed (behind_file t c m vdata) vdata.fname (length t.nodes) p) (sym h)
        (IsListed-grown t c m vdata at r))

-- The first of the entries, in the tree behind the change.
first-grown :
    (t : Tree) (name : Bytes) (c : ℕ) (m newnode : Node) (p : Pointer) {b : ℕ}
    → Ends t name c m b
    → (first : Node) × (node_at (grown t c (record m { next = p }) newnode) (some b) ≡ some first)
      × (first.info.fname ≢ home)
first-grown t name c m newnode p (end e h o) =
    (record m { next = p }, grown-linked t c (record m { next = p }) newnode e, o.1)
first-grown t name c m newnode p (more b b' n ne e o h r) =
    (n, grown-other t c (record m { next = p }) newnode (Ends-at t name c m r) b ne e, o.1)

addnode-file :
    (t : Tree) (unset vpath : Bytes) (vdata : Info) (a b c fuel : ℕ) (n m : Node)
    → search fuel t unset vpath ≡ some (some a)
    → node_at t (some a) ≡ some n
    → n.fold ≡ some b
    → (r : Ends t vdata.fname c m b) → steps r ≤ fuel
    → m.info.dflag ≢ 1
    → addnode fuel t unset vpath vdata ≡ some (length t.nodes, behind_file t c m vdata)
unfolding addnode searchlast
addnode-file t unset vpath vdata a b c fuel n m found at fold r enough file =
    rw
      (
        found,
        at,
        fold,
        last_of-Ends t vdata.fname c m r fuel enough,
        Ends-at t vdata.fname c m r,
        ==_false m.info.dflag 1 file,
      )
      refl

abbrev pub home_array : Bytes
home_array = home ++ 0 ∷ []

home-IsName : IsName home
home-IsName = (all_differ-Lacks 0 home refl, all_differ-Lacks slash home refl)

-- `enough` is fuel enough. A file that addfile enters below "home" is found there by search: head is a
-- folder with that name whose list of entries ends with a file, and no entry has the new name or is
-- called "home". The new name has no slash, is not "home" and has fewer than 45 bytes; the name of its
-- datanode fits its array; `junk` stands behind the path that is looked for, at least 50 bytes, and
-- `unset` is what local arrays of MAX_PATH bytes held before.
pub addfile-search :
    (t : Tree) (unset fname dname junk : Bytes) (a b c : ℕ) (n m : Node)
    → length unset ≡ max_path
    → t.head ≡ some a
    → node_at t (some a) ≡ some n
    → n.info.fname ≡ home
    → n.fold ≡ some b
    → c ≢ a
    → Ends t fname c m b
    → m.info.dflag ≢ 1
    → IsName fname
    → fname ≢ home
    → length fname < 45
    → length dname < max_path
    → 50 ≤ length junk
    → (enough : ℕ) × ((fuel : ℕ)
        → enough ≤ fuel
        → (t' : Tree) × (addfile fuel t unset fname dname home_array ≡ some (length t.nodes, t'))
          × (search fuel t' unset (home ++ (slash ∷ (fname ++ (0 ∷ junk))))
              ≡ some (some (length t.nodes))))
unfolding addfile addentry
addfile-search t unset fname dname junk a b c n m size head at called fold apart ends file is ne
      short fits room =
    let info = entry 0 fname dname home in
    let t' = behind_file t c m info in
    let (first, first_at, first_name) =
      first-grown t fname c m (entered t c m info) (some (length t.nodes)) ends in
    let listed = IsListed-grown t c m info (Ends-at t fname c m ends) ends in
    let at' =
      grown-other t c (record m { next = some (length t.nodes) }) (entered t c m info)
        (Ends-at t fname c m ends) a apart at in
    let below : Finds t' (length t.nodes) (fname ∷ []) n.fold =
      subst (λ p. Finds t' (length t.nodes) (fname ∷ []) p) (sym fold)
        (last fname (some b) first first_at first_name ne listed) in
    let whole : Finds t' (length t.nodes) (home ∷ fname ∷ []) t'.head =
      down home fname [] a n t.head (omega arith)
        (subst (λ p. IsListed t' home a p) (sym head) (here n at' called)) at' below in
    let longer : path_text (home ∷ fname ∷ []) ≢ home =
      λ e. (let lengths = ap length e in absurd (omega arith)) in
    let root : (fuel : ℕ) → search fuel t unset home_array ≡ some (some a) =
      unfold search in (λ fuel. ap some head) in
    let (enough, finds) =
      search-Finds t' unset (length t.nodes) (home ∷ fname ∷ []) junk size whole
        (home-IsName, (is, tt)) (omega arith) room longer in
    (
      steps ends + enough,
      λ fuel e. (
        t',
        rw (within-fits max_path fname (omega arith), within-fits max_path dname fits)
            (addnode-file t unset home_array info a b c fuel n m (root fuel) at fold ends
              (omega arith) file),
        finds fuel (omega arith),
      ),
    )
