-- ===== src/Tree/Search.antt =====
-- The search for a path in the tree of dd.c: searchloc finds what the path names.
use dsproj.Common.{
  ℕ, zero, suc, ◌+◌, ◌≤◌, ◌<◌, ◌≡◌, ◌≢◌, refl, ap, ◌∙◌, arith, pos, minus_one, ==_false, false,
  Bool-cases, inl, inr, some, List, [], ◌∷◌, ◌++◌, length, length-append, append_assoc, take, drop,
  All, All-append,
}
use dsproj.Text.{Bytes, Lacks, c_str, same}
use dsproj.Paths.{findfch, parserpath, removepath, slash}
use dsproj.Paths.Copy.{findfch-slash}
use dsproj.Paths.Split.{
  path_array, parserpath-path_array, removepath-path_array, c_str-text, take-drop,
}
use dsproj.Registry.Insert.{same_refl}
use dsproj.Registry.Known.{same-eq}
use dsproj.Tree.{
  Node, Tree, Pointer, node_at, home, max_path, find_named, in_folder, searchloc, search, onto,
}

-- The first entry of that name in the list that starts at a pointer is at `a`.
pub data IsListed (t : Tree) (name : Bytes) (a : ℕ) : Pointer → Type 0 where
  here : (n : Node) → node_at t (some a) ≡ some n → n.info.fname ≡ name → IsListed t name a (some a)
  behind :
      (b : ℕ) (n : Node)
      → node_at t (some b) ≡ some n
      → n.info.fname ≢ name
      → IsListed t name a n.next
      → IsListed t name a (some b)

-- A path of names leads from the list that starts at a pointer to the entry at `a`, through the folds
-- of the folders. A name is neither empty nor "home" at the end of the path, and there the list does
-- not start with a node called "home"; a folder's name has at least two characters.
pub data Finds (t : Tree) (a : ℕ) : List Bytes → Pointer → Type 0 where
  last :
      (name : Bytes) (p : Pointer) (first : Node)
      → node_at t p ≡ some first
      → first.info.fname ≢ home
      → name ≢ home
      → IsListed t name a p
      → Finds t a (name ∷ []) p
  down :
      (name next_name : Bytes) (names : List Bytes) (b : ℕ) (n : Node) (p : Pointer)
      → 2 ≤ length name
      → IsListed t name b p
      → node_at t (some b) ≡ some n
      → Finds t a (next_name ∷ names) n.fold
      → Finds t a (name ∷ next_name ∷ names) p

-- The names with slashes between them.
abbrev pub path_text : List Bytes → Bytes
path_text [] = []
path_text (name ∷ []) = name
path_text (name ∷ next ∷ names) = name ++ (slash ∷ path_text (next ∷ names))

abbrev pub IsName : Bytes → Type 0
IsName name = Lacks 0 name × Lacks slash name

path_text-Lacks : (names : List Bytes) → All IsName names → Lacks 0 (path_text names)
path_text-Lacks [] h = tt
path_text-Lacks (name ∷ []) h = h.0.0
path_text-Lacks (name ∷ next ∷ names) (h, hs) =
    All-append (λ c. c ≢ 0) name (slash ∷ path_text (next ∷ names)) h.0
      (omega arith, path_text-Lacks (next ∷ names) hs)

pub same-neq : (s t : Bytes) → s ≢ t → same s t ≡ false
same-neq s t ne = elim (Bool-cases (same s t)) [ inl e ↦ absurd (ne (same-eq s t e)) | inr e ↦ e ]

-- The length of the walk to an entry.
walk : {t : Tree} {name : Bytes} {a : ℕ} {p : Pointer} → IsListed t name a p → ℕ
walk (here n e h) = 1
walk (behind b n e h l) = suc (walk l)

find_named-IsListed :
    (t : Tree) (name : Bytes) (a : ℕ) {p : Pointer} (l : IsListed t name a p) (fuel : ℕ)
    → walk l ≤ fuel
    → find_named fuel t name p ≡ some (some a)
unfolding find_named walk
find_named-IsListed t name a (here n e h) zero enough = absurd (omega arith)
find_named-IsListed t name a (here n e h) (suc fuel) enough = rw (e, h, same_refl name) refl
find_named-IsListed t name a (behind b n e h l) zero enough = absurd (omega arith)
find_named-IsListed t name a (behind b n e h l) (suc fuel) enough =
    rw (e, same-neq n.info.fname name h) (find_named-IsListed t name a l fuel (omega arith))

findfch-none :
    (i : ℕ) (name junk : Bytes)
    → IsName name
    → findfch i (name ++ (0 ∷ junk)) slash ≡ some minus_one
unfolding findfch
findfch-none i [] junk h = refl
findfch-none i (c ∷ name) junk ((nul, l), (ne, p)) =
    rw (==_false c 0 nul, ==_false c slash ne) (findfch-none (i + 1) name junk (l, p))

length-drop : (k : ℕ) (xs : Bytes) → k ≤ length xs → length (drop k xs) + k ≡ length xs
length-drop zero xs h = omega arith
length-drop (suc k) [] h = absurd (omega arith)
length-drop (suc k) (x ∷ xs) h = omega (arith, length-drop k xs (omega arith))

-- What removepath writes to an array of MAX_PATH bytes for a path of fewer than 50.
onto-removepath :
    (unset root rest junk : Bytes)
    → length unset ≡ max_path
    → length root ≤ length junk
    → length root + length rest < 50
    → (junk' : Bytes) × (onto unset (rest ++ (0 ∷ (take (length root) junk ++ (0 ∷ []))))
        ≡ rest ++ (0 ∷ junk'))
      × (50 ≤ length junk')
onto-removepath unset root rest junk size more short =
    let near = take (length root) junk in
    let written = rest ++ (0 ∷ (near ++ (0 ∷ []))) in
    let near_length : length near ≡ length root = (take-drop (length root) junk more).1 in
    let sizes : length written ≡ length rest + length root + 2 = omega (
      arith,
      length-append rest (0 ∷ (near ++ (0 ∷ []))),
      length-append near (0 ∷ []),
      near_length,
    ) in
    (
      (near ++ (0 ∷ [])) ++ drop (length written) unset,
      append_assoc rest (0 ∷ (near ++ (0 ∷ []))) (drop (length written) unset),
      omega (
        arith,
        sizes,
        near_length,
        length-append (near ++ (0 ∷ [])) (drop (length written) unset),
        length-append near (0 ∷ []),
        length-drop (length written) unset (omega arith),
      ),
    )

-- The fuel that the search needs.
depth : {t : Tree} {a : ℕ} {names : List Bytes} {p : Pointer} → Finds t a names p → ℕ
unfolding walk
depth (last name p first e h1 h2 l) = suc (walk l)
depth (down name next_name names b n p long l e f) = suc (walk l + depth f)

searchloc-last :
    (t : Tree) (unset name junk : Bytes) (a fuel : ℕ) (p : Pointer) (first : Node)
    → node_at t p ≡ some first
    → first.info.fname ≢ home
    → name ≢ home
    → IsName name
    → (l : IsListed t name a p) → walk l ≤ fuel
    → searchloc (suc fuel) t unset p (name ++ (0 ∷ junk)) ≡ some (some a)
unfolding searchloc in_folder
searchloc-last t unset name junk a fuel p first e h1 h2 is l enough =
    rw
      (
        findfch-none 0 name junk is,
        c_str-text name junk is.0,
        same-neq name home h2,
        e,
        same-neq first.info.fname home h1,
      )
      (find_named-IsListed t name a l fuel enough)

searchloc-below :
    (t : Tree) (unset arr : Bytes) (fuel k b : ℕ) (p : Pointer) {foldname tpath : Bytes} {n : Node}
    → findfch 0 arr slash ≡ some (pos k)
    → parserpath max_path arr ≡ some foldname
    → find_named fuel t (c_str foldname) p ≡ some (some b)
    → node_at t (some b) ≡ some n
    → removepath max_path arr ≡ some tpath
    → searchloc (suc fuel) t unset p arr ≡ searchloc fuel t unset n.fold (onto unset tpath)
unfolding searchloc
searchloc-below t unset arr fuel k b p found root listed at removed =
    rw (found, root, listed, at, removed) refl

searchloc-Finds :
    (t : Tree) (unset : Bytes) (a : ℕ) {names : List Bytes} {p : Pointer} (f : Finds t a names p)
    (fuel : ℕ) (junk : Bytes)
    → length unset ≡ max_path
    → depth f ≤ fuel
    → All IsName names
    → length (path_text names) < 50
    → 50 ≤ length junk
    → searchloc fuel t unset p (path_text names ++ (0 ∷ junk)) ≡ some (some a)
unfolding depth
searchloc-Finds t unset a (last name p first e h1 h2 l) zero junk size enough is short more =
    absurd (omega arith)
searchloc-Finds t unset a (last name p first e h1 h2 l) (suc fuel) junk size enough is short more =
    searchloc-last t unset name junk a fuel p first e h1 h2 is.0 l (omega arith)
searchloc-Finds t unset a (down name next_name names b n p long l e f) zero junk size enough is
      short more =
    absurd (omega arith)
searchloc-Finds t unset a (down name next_name names b n p long l e f) (suc fuel) junk size enough
      (is, iss) short more =
    let rest = path_text (next_name ∷ names) in
    let parts : length (name ++ (slash ∷ rest)) ≡ length name + 1 + length rest =
      omega (arith, length-append name (slash ∷ rest)) in
    let (junk', written, more') =
      onto-removepath unset name rest junk size (omega arith) (omega arith) in
    let again = searchloc-Finds t unset a f fuel junk' size (omega arith) iss (omega arith) more' in
    let listed : find_named fuel t (c_str (name ++ (0 ∷ []))) p ≡ some (some b) =
      rw (c_str-text name [] is.0) (find_named-IsListed t name b l fuel (omega arith)) in
    ap (searchloc (suc fuel) t unset p) (append_assoc name (slash ∷ rest) (0 ∷ junk))
    ∙ searchloc-below t unset (path_array name rest junk) fuel (0 + length name + 1) b p
        (findfch-slash 0 name (rest ++ (0 ∷ junk)) is.0 is.1)
        (parserpath-path_array max_path name rest junk is.0 is.1 long (omega arith)) listed e
        (removepath-path_array max_path name rest junk is.0 is.1
          (path_text-Lacks (next_name ∷ names) iss) (omega arith) (omega arith))
    ∙ ap (searchloc fuel t unset n.fold) written
    ∙ again

-- Enough fuel is given by `enough`. On an array that holds the path of these names, fewer than 50
-- bytes, and 50 bytes or more behind its NUL: if the names, none with a slash, lead from the head
-- of the tree to an entry (Finds), and are not just "home", then search gives this entry, whatever
-- local arrays of MAX_PATH bytes held before.
pub search-Finds :
    (t : Tree) (unset : Bytes) (a : ℕ) (names : List Bytes) (junk : Bytes)
    → length unset ≡ max_path
    → Finds t a names t.head
    → All IsName names
    → length (path_text names) < 50
    → 50 ≤ length junk
    → path_text names ≢ home
    → (enough : ℕ) × ((fuel : ℕ)
        → enough ≤ fuel
        → search fuel t unset (path_text names ++ (0 ∷ junk)) ≡ some (some a))
unfolding search
search-Finds t unset a names junk size f is short more ne = (
  depth f,
  λ fuel e.
      rw
        (
          c_str-text (path_text names) junk (path_text-Lacks names is),
          same-neq (path_text names) home ne,
        )
        (searchloc-Finds t unset a f fuel junk size e is short more),
)
