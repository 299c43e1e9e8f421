-- ===== src/Tree/Store/Line.antt =====
-- One line of the tree's file, as recursestore writes it and recoverlist reads it.
use dsproj.Common.{
  All, All-append, All-map, ℕ, ◌<◌, ◌≡◌, ◌≢◌, ◌^◌, refl, sym, subst, ◌∙◌, ap, arith, pos, false,
  some, List, [], ◌∷◌, ◌++◌, length, length-append, append_assoc,
}
use dsproj.Text.{Bytes, codes, comma, snprintf10, is_space}
use dsproj.Text.Number.{IsField, IsPrint, snprintf10-IsPrint}
use dsproj.RoundTrip.Buffer.{strtok-IsField, number-field, within-fits}
use dsproj.Registry.Config.{onto_line}
use dsproj.Tree.{Info, max_path}
use dsproj.Tree.Store.{
  names_text, numbers_text, node_text, words, read_name, read_names, read_natural, read_numbers,
  read_node,
}

-- A text that stands as one field in the line: no comma, no blank and no NUL, not empty, and short.
abbrev pub IsSolid : Bytes → Type 0
IsSolid s = All (λ c. is_space c ≡ false) s

abbrev pub IsEntry : Bytes → Type 0
IsEntry s = IsField s × IsSolid s × (length s < max_path)

read_name-field : (s rest : Bytes) → IsEntry s → read_name (s ++ (comma ∷ rest)) ≡ some (s, rest)
unfolding read_name
read_name-field s rest (field, solid, short) =
    rw (strtok-IsField s rest field, within-fits max_path s short) refl

read_names-text :
    (ds : List Bytes) (rest : Bytes)
    → All IsEntry ds
    → read_names (length ds) (names_text ds rest) ≡ some (ds, rest)
unfolding read_names names_text
read_names-text [] rest h = refl
read_names-text (d ∷ ds) rest (hd, h) =
    rw (read_name-field d (names_text ds rest) hd, read_names-text ds rest h) refl

read_natural-field :
    (n : ℕ) (rest : Bytes)
    → n < 10 ^ 9
    → read_natural (snprintf10 (pos n) ++ (comma ∷ rest)) ≡ some (n, rest)
unfolding read_natural
read_natural-field n rest h = rw (number-field (pos n) rest h) refl

read_numbers-text :
    (ns : List ℕ) (rest : Bytes)
    → All (λ n. n < 10 ^ 9) ns
    → read_numbers (length ns) (numbers_text ns rest) ≡ some (ns, rest)
unfolding read_numbers numbers_text
read_numbers-text [] rest h = refl
read_numbers-text (n ∷ ns) rest (hn, h) =
    rw (read_natural-field n (numbers_text ns rest) hn, read_numbers-text ns rest h) refl

-- A node whose line is read back.
pub record IsPlainInfo (info : Info) : Type 0 where
  pub numbers : All (λ n. n < 10 ^ 9) (info.nno ∷ info.pno ∷ info.dflag ∷ info.dsync)
  pub names : All IsEntry (info.fname ∷ info.loc ∷ info.dname)
  pub five_names : length info.dname ≡ 5
  pub five_numbers : length info.dsync ≡ 5
  pub line_fits : length (node_text info (codes "ENDD\n")) < 1000

abbrev pub word_of : Info → Bytes
word_of info = node_text info (codes "ENDD")

names_text-append : (ds : List Bytes) (x y : Bytes) → names_text ds (x ++ y) ≡ names_text ds x ++ y
unfolding names_text
names_text-append [] x y = refl
names_text-append (d ∷ ds) x y =
    rw (names_text-append ds x y) (sym (append_assoc d (comma ∷ names_text ds x) y))

numbers_text-append :
    (ns : List ℕ) (x y : Bytes) → numbers_text ns (x ++ y) ≡ numbers_text ns x ++ y
unfolding numbers_text
numbers_text-append [] x y = refl
numbers_text-append (n ∷ ns) x y =
    rw (numbers_text-append ns x y)
      (sym (append_assoc (snprintf10 (pos n)) (comma ∷ numbers_text ns x) y))

pub node_text-line :
    (info : Info) (rest : Bytes)
    → node_text info (codes "ENDD\n") ++ rest ≡ word_of info ++ (b'\n' ∷ rest)
node_text-line info rest =
    let step : node_text info (codes "ENDD\n") ≡ word_of info ++ b'\n' ∷ [] =
      rw
        (
          numbers_text-append (info.dflag ∷ info.dsync) (codes "ENDD") (b'\n' ∷ []),
          names_text-append (info.loc ∷ []) (numbers_text (info.dflag ∷ info.dsync) (codes "ENDD"))
              (b'\n' ∷ []),
          names_text-append (info.fname ∷ info.dname) _ (b'\n' ∷ []),
          numbers_text-append (info.nno ∷ info.pno ∷ []) _ (b'\n' ∷ []),
        )
        refl in
    rw step (append_assoc (word_of info) (b'\n' ∷ []) rest)

number-IsSolid : (n : ℕ) → IsSolid (snprintf10 (pos n))
unfolding is_space
number-IsSolid n =
    All-map IsPrint _ (λ c (h : IsPrint c). ground arith) (snprintf10 (pos n))
      (snprintf10-IsPrint (pos n))

names_text-IsSolid :
    (ds : List Bytes) (rest : Bytes) → All IsEntry ds → IsSolid rest → IsSolid (names_text ds rest)
unfolding names_text is_space
names_text-IsSolid [] rest h k = k
names_text-IsSolid (d ∷ ds) rest (hd, h) k =
    All-append (λ c. is_space c ≡ false) d (comma ∷ names_text ds rest) hd.1
      (refl, names_text-IsSolid ds rest h k)

numbers_text-IsSolid : (ns : List ℕ) (rest : Bytes) → IsSolid rest → IsSolid (numbers_text ns rest)
unfolding numbers_text is_space
numbers_text-IsSolid [] rest k = k
numbers_text-IsSolid (n ∷ ns) rest k =
    All-append (λ c. is_space c ≡ false) (snprintf10 (pos n)) (comma ∷ numbers_text ns rest)
      (number-IsSolid n) (refl, numbers_text-IsSolid ns rest k)

word_of-IsSolid : (info : Info) → IsPlainInfo info → IsSolid (word_of info)
unfolding is_space
word_of-IsSolid info h = numbers_text-IsSolid (info.nno ∷ info.pno ∷ []) _ (
    names_text-IsSolid (info.fname ∷ info.dname) _ (h.names.0, h.names.1.1)
      (names_text-IsSolid (info.loc ∷ []) _ (h.names.1.0, tt)
        (numbers_text-IsSolid (info.dflag ∷ info.dsync) (codes "ENDD")
          (refl, (refl, (refl, (refl, tt)))))))

words_inside :
    (c d : ℕ) (s : Bytes)
    → is_space c ≡ false
    → is_space d ≡ false
    → words (c ∷ d ∷ s) ≡ onto_line c (words (d ∷ s))
unfolding words
words_inside c d s hc hd = rw (hc, hd) refl

words_end : (c : ℕ) (s : Bytes) → is_space c ≡ false → words (c ∷ b'\n' ∷ s) ≡ (c ∷ []) ∷ words s
unfolding words is_space
words_end c s hc = rw hc refl

-- A word that ends at a newline is read, and then the words behind it.
words-line :
    (c : ℕ) (w rest : Bytes)
    → IsSolid (c ∷ w)
    → words ((c ∷ w) ++ (b'\n' ∷ rest)) ≡ (c ∷ w) ∷ words rest
words-line c [] rest (hc, h) = words_end c rest hc
words-line c (d ∷ w) rest (hc, h) =
    words_inside c d (w ++ (b'\n' ∷ rest)) hc h.0 ∙ ap (onto_line c) (words-line d w rest h)

words-solid : (w rest : Bytes) → IsSolid w → w ≢ [] → words (w ++ (b'\n' ∷ rest)) ≡ w ∷ words rest
words-solid [] rest h ne = absurd (ne refl)
words-solid (c ∷ w) rest h ne = words-line c w rest h

word_of-ne-nil : (info : Info) → word_of info ≢ []
unfolding numbers_text
word_of-ne-nil info e =
    let sizes : length (word_of info) ≡ 0 = rw e refl in
    absurd (omega (arith, sizes, length-append (snprintf10 (pos info.nno)) _))

-- The first word behind a node's line is the line.
pub words-node :
    (info : Info) (rest : Bytes)
    → IsPlainInfo info
    → words (node_text info (codes "ENDD\n") ++ rest) ≡ word_of info ∷ words rest
words-node info rest h =
    rw (node_text-line info rest)
      (words-solid (word_of info) rest (word_of-IsSolid info h) (word_of-ne-nil info))

word_of-fits : (info : Info) → IsPlainInfo info → length (word_of info) < 1000
word_of-fits info h =
    let size : length (node_text info (codes "ENDD\n") ++ [])
        ≡ length (word_of info ++ b'\n' ∷ []) =
      ap length (node_text-line info []) in
    omega (
      arith,
      size,
      length-append (node_text info (codes "ENDD\n")) [],
      length-append (word_of info) (b'\n' ∷ []),
      h.line_fits,
    )

-- The line of a node is read back as the node's fields.
pub read_node-word : (info : Info) → IsPlainInfo info → read_node (word_of info) ≡ some info
unfolding read_node
read_node-word info h =
    let after_names = numbers_text (info.dflag ∷ info.dsync) (codes "ENDD") in
    let after_loc = names_text (info.loc ∷ []) after_names in
    let names5 : read_names 5 (names_text info.dname after_loc) ≡ some (info.dname, after_loc) =
      subst (λ k. read_names k (names_text info.dname after_loc) ≡ some (info.dname, after_loc))
        h.five_names (read_names-text info.dname after_loc h.names.1.1) in
    let numbers5 : read_numbers 5 (numbers_text info.dsync (codes "ENDD"))
        ≡ some (info.dsync, codes "ENDD") =
      subst
        (λ k.
          read_numbers k (numbers_text info.dsync (codes "ENDD")) ≡ some (info.dsync, codes "ENDD"))
        h.five_numbers (read_numbers-text info.dsync (codes "ENDD") h.numbers.1.1.1) in
    let first =
      read_natural-field info.nno
        (numbers_text (info.pno ∷ []) (names_text (info.fname ∷ info.dname) after_loc))
        h.numbers.0 in
    let second =
      read_natural-field info.pno (names_text (info.fname ∷ info.dname) after_loc) h.numbers.1.0 in
    let third = read_name-field info.fname (names_text info.dname after_loc) h.names.0 in
    let fourth = read_name-field info.loc after_names h.names.1.0 in
    let fifth =
      read_natural-field info.dflag (numbers_text info.dsync (codes "ENDD")) h.numbers.1.1.0 in
    rw (within-fits 1000 (word_of info) (word_of-fits info h)) (
      unfold names_text in
      unfold numbers_text in rw (first, second, third, names5, fourth, fifth, numbers5) refl)
