-- ===== src/Paths/Split.antt =====
-- parserpath and removepath of dd.c on a path with a root folder.
use dsproj.Common.{
  ℕ, zero, suc, ◌+◌, ◌≤◌, ◌<◌, ◌≡◌, ◌≢◌, refl, sym, ap, ◌∙◌, arith, none, some, [], ◌∷◌, ◌++◌,
  length, length-append, append_assoc, drop, take, All-append,
}
use dsproj.Text.{Bytes, Lacks, c_str}
use dsproj.Paths.{copy_all, cstrcpy, parserpath, removepath, removed, slash}
use dsproj.Paths.Copy.{
  cstrcpy-copy_count, cstrcpy-copy_all, subtract-pos, copy_count-drop, copy_all-drop, copy_all_past,
  findfch-slash,
}

-- An array that holds the path `root/rest` and further bytes.
abbrev pub path_array : Bytes → Bytes → Bytes → Bytes
path_array root rest junk = root ++ (slash ∷ (rest ++ (0 ∷ junk)))

pub path_array-text :
    (root rest junk : Bytes) → path_array root rest junk ≡ (root ++ (slash ∷ rest)) ++ (0 ∷ junk)
path_array-text root rest junk = sym (append_assoc root (slash ∷ rest) (0 ∷ junk))

pub path-Lacks :
    (root rest : Bytes) → Lacks 0 root → Lacks 0 rest → Lacks 0 (root ++ (slash ∷ rest))
path-Lacks root rest h1 h2 = All-append (λ c. c ≢ 0) root (slash ∷ rest) h1 (omega arith, h2)

drop-path_array :
    (root rest junk : Bytes)
    → drop (suc (length root)) (path_array root rest junk) ≡ rest ++ (0 ∷ junk)
drop-path_array [] rest junk = refl
drop-path_array (c ∷ root) rest junk = drop-path_array root rest junk

pub take-drop :
    (n : ℕ) (xs : Bytes) → n ≤ length xs → (take n xs ++ drop n xs ≡ xs) × (length (take n xs) ≡ n)
take-drop zero xs h = (refl, refl)
take-drop (suc n) [] h = absurd (omega arith)
take-drop (suc n) (x ∷ xs) h =
    let (e, l) = take-drop n xs (omega arith) in (ap (λ r. x ∷ r) e, ap suc l)

pub c_str-text : (text junk : Bytes) → Lacks 0 text → c_str (text ++ (0 ∷ junk)) ≡ text
c_str-text [] junk h = refl
c_str-text (zero ∷ text) junk (nul, h) = absurd (nul refl)
c_str-text (suc c ∷ text) junk (nul, h) = ap (λ r. suc c ∷ r) (c_str-text text junk h)

pub parserpath-path_array :
    (room : ℕ) (root rest junk : Bytes)
    → Lacks 0 root
    → Lacks slash root
    → 2 ≤ length root
    → length root < room
    → parserpath room (path_array root rest junk) ≡ some (root ++ (0 ∷ []))
unfolding parserpath
parserpath-path_array room [] rest junk lacks plain long fits = absurd (omega arith)
parserpath-path_array room (a ∷ []) rest junk lacks plain long fits = absurd (omega arith)
parserpath-path_array room (a ∷ b ∷ root) rest junk lacks plain long fits =
    let found = findfch-slash 0 (a ∷ b ∷ root) (rest ++ (0 ∷ junk)) lacks plain in
    let copied =
      copy_count-drop (path_array (a ∷ b ∷ root) rest junk) (a ∷ b ∷ root)
        (slash ∷ (rest ++ (0 ∷ junk))) 0 refl in
    rw (found, subtract-pos (0 + length (a ∷ b ∷ root) + 1) (suc (length root)) 2 (omega arith))
      (cstrcpy-copy_count room (path_array (a ∷ b ∷ root) rest junk) (a ∷ b ∷ root) (length root) 0
        copied fits)

pub removepath-path_array :
    (room : ℕ) (root rest junk : Bytes)
    → Lacks 0 root
    → Lacks slash root
    → Lacks 0 rest
    → length root ≤ length junk
    → length root + length rest + 1 < room
    → removepath room (path_array root rest junk)
      ≡ some (rest ++ (0 ∷ (take (length root) junk ++ (0 ∷ []))))
unfolding removepath removed
removepath-path_array room root rest junk lacks plain rest_lacks more fits =
    let near = take (length root) junk in
    let (joined, near_length) = take-drop (length root) junk more in
    let text = path_array-text root rest junk in
    let from : drop (suc (length root)) (path_array root rest junk)
        ≡ (rest ++ (0 ∷ near)) ++ drop (length root) junk =
      drop-path_array root rest junk
      ∙ ap (λ j. rest ++ (0 ∷ j)) (sym joined)
      ∙ sym (append_assoc rest (0 ∷ near) (drop (length root) junk)) in
    let copied =
      copy_all-drop (path_array root rest junk) (root ++ (slash ∷ rest)) junk (rest ++ (0 ∷ near))
        (drop (length root) junk) (suc (length root)) (path-Lacks root rest lacks rest_lacks)
        (omega
          (arith, length-append root (slash ∷ rest), length-append rest (0 ∷ near), near_length))
        from in
    let start : 0 + length root + 1 ≡ suc (length root) = omega arith in
    rw (findfch-slash 0 root (rest ++ (0 ∷ junk)) lacks plain, start)
      (cstrcpy-copy_all room (path_array root rest junk) (rest ++ (0 ∷ near)) (suc (length root))
          (ap (λ s. copy_all (path_array root rest junk) s (suc (length root))) text ∙ copied)
          (omega (arith, length-append rest (0 ∷ near), near_length))
        ∙ ap some (append_assoc rest (0 ∷ near) (0 ∷ [])))

-- Of an array that holds a path `root/rest` and behind its NUL at least as many bytes as the root
-- folder's name has, parserpath gives that name and removepath the rest of the path. The name has at
-- least two characters, and the path with its NUL fits the `room` of the arrays that are written.
pub parserpath-removepath :
    (room : ℕ) (root rest junk : Bytes)
    → Lacks 0 root
    → Lacks slash root
    → Lacks 0 rest
    → 2 ≤ length root
    → length root ≤ length junk
    → length root + length rest + 1 < room
    → (parserpath room (path_array root rest junk) ≡ some (root ++ (0 ∷ [])))
      × ((copied : Bytes) × (removepath room (path_array root rest junk) ≡ some copied)
          × (c_str copied ≡ rest))
parserpath-removepath room root rest junk lacks plain rest_lacks long more fits = (
  parserpath-path_array room root rest junk lacks plain long (omega arith),
  (
    _,
    removepath-path_array room root rest junk lacks plain rest_lacks more fits,
    c_str-text rest _ rest_lacks,
  ),
)

-- If the array has behind the path's NUL fewer bytes than the root folder's name, as a string literal
-- has, then removepath reads past its end.
pub removepath_past :
    (room : ℕ) (root rest junk : Bytes)
    → Lacks 0 root
    → Lacks slash root
    → Lacks 0 rest
    → length junk < length root
    → removepath room (path_array root rest junk) ≡ none
unfolding removepath removed cstrcpy
removepath_past room root rest junk lacks plain rest_lacks few =
    let start : 0 + length root + 1 ≡ suc (length root) = omega arith in
    let left =
      copy_all_past (path_array root rest junk) (root ++ (slash ∷ rest)) junk (rest ++ (0 ∷ junk))
        (suc (length root)) (path-Lacks root rest lacks rest_lacks)
        (omega (arith, length-append root (slash ∷ rest), length-append rest (0 ∷ junk)))
        (drop-path_array root rest junk) in
    rw
      (
        findfch-slash 0 root (rest ++ (0 ∷ junk)) lacks plain,
        start,
        ap (λ s. copy_all (path_array root rest junk) s (suc (length root)))
              (path_array-text root rest junk)
            ∙ left,
      )
      refl

-- With a root folder of one letter, parserpath gives the whole path in place of the folder's name.
parserpath_short :
    (room c : ℕ) (rest junk : Bytes)
    → c ≢ 0
    → c ≢ slash
    → Lacks 0 rest
    → length rest + 2 < room
    → parserpath room (path_array (c ∷ []) rest junk) ≡ some (c ∷ slash ∷ (rest ++ (0 ∷ [])))
unfolding parserpath
parserpath_short room c rest junk nul plain lacks fits =
    rw (findfch-slash 0 (c ∷ []) (rest ++ (0 ∷ junk)) (nul, tt) (plain, tt)) (
      cstrcpy-copy_all room (path_array (c ∷ []) rest junk) (c ∷ slash ∷ rest) 0
        (copy_all-drop (path_array (c ∷ []) rest junk) (c ∷ slash ∷ rest) junk (c ∷ slash ∷ rest)
          (0 ∷ junk) 0 (nul, (omega arith, lacks)) refl refl)
        (omega arith))
