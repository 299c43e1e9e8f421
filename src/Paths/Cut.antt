-- ===== src/Paths/Cut.antt =====
-- getdir and parsepath of dd.c, which cut a path at its last slash.
use dsproj.Common.{
  ℕ, zero, suc, ◌+◌, ◌≤◌, ◌<◌, ◌≡◌, ◌≢◌, refl, sym, ap, ◌∙◌, arith, pos, some, [], ◌∷◌, ◌++◌,
  length, length-append, append_assoc, get_elem?, All-append, ==_false, ==_refl,
}
use dsproj.Text.{Bytes, Lacks}
use dsproj.Paths.{getdir, parsepath, folder_of, last_name, slash, findlch, last_from, strlen}
use dsproj.Paths.Copy.{cstrcpy-copy_count, subtract-pos, drop-append, copy_count-drop, strlen-text}
use dsproj.Paths.Split.{path_array, path_array-text, path-Lacks}

last_from_hit :
    (i : ℕ) (stemp : Bytes) (c : ℕ)
    → get_elem? stemp i ≡ some c
    → last_from i stemp c ≡ some (pos i)
unfolding last_from
last_from_hit zero stemp c e = rw (e, ==_refl c) refl
last_from_hit (suc i) stemp c e = rw (e, ==_refl c) refl

last_from_miss :
    (i : ℕ) (stemp : Bytes) (c : ℕ) {d : ℕ}
    → get_elem? stemp (suc i) ≡ some d
    → d ≢ c
    → last_from (suc i) stemp c ≡ last_from i stemp c
unfolding last_from
last_from_miss i stemp c {d} e ne = rw (e, ==_false d c ne) refl

get_elem-append : (xs ys : Bytes) (i : ℕ) → get_elem? (xs ++ ys) (i + length xs) ≡ get_elem? ys i
get_elem-append [] ys i = ap (λ k. get_elem? ys k) (omega arith)
get_elem-append (x ∷ xs) ys i =
    let e : i + length (x ∷ xs) ≡ suc (i + length xs) = omega arith in
    rw e (get_elem-append xs ys i)

get_elem-inside :
    (xs ys : Bytes) (i c : ℕ)
    → Lacks c xs
    → i < length xs
    → (d : ℕ) × (get_elem? (xs ++ ys) i ≡ some d) × (d ≢ c)
get_elem-inside [] ys i c h l = absurd (omega arith)
get_elem-inside (x ∷ xs) ys zero c (ne, h) l = (x, refl, ne)
get_elem-inside (x ∷ xs) ys (suc i) c (ne, h) l = get_elem-inside xs ys i c h (omega arith)

-- From the end of the text down, the first slash is the one behind the folder.
last_from-slash :
    (folder name tail : Bytes) (j : ℕ)
    → Lacks slash name
    → j ≤ length name
    → last_from (j + length folder) (folder ++ (slash ∷ (name ++ tail))) slash
      ≡ some (pos (length folder))
last_from-slash folder name tail zero lacks h =
    last_from_hit (0 + length folder) _ slash (get_elem-append folder (slash ∷ (name ++ tail)) 0)
    ∙ ap (λ k. some (pos k)) (omega arith)
last_from-slash folder name tail (suc j) lacks h =
    let (d, at, ne) = get_elem-inside name tail j slash lacks (omega arith) in
    let e : suc j + length folder ≡ suc (j + length folder) = omega arith in
    rw e (
      last_from_miss (j + length folder) _ slash
        (ap (λ k. get_elem? (folder ++ (slash ∷ (name ++ tail))) k) (sym e)
          ∙ get_elem-append folder (slash ∷ (name ++ tail)) (suc j)
          ∙ at)
        ne
      ∙ last_from-slash folder name tail j lacks (omega arith))

findlch-slash :
    (folder name junk : Bytes)
    → Lacks 0 folder
    → Lacks 0 name
    → Lacks slash name
    → findlch (path_array folder name junk) slash ≡ some (pos (length folder))
unfolding findlch
findlch-slash folder name junk lacks name_lacks plain =
    let text = path_array-text folder name junk in
    let inner : path_array folder name junk ≡ folder ++ (slash ∷ ((name ++ (0 ∷ [])) ++ junk)) =
      ap (λ t. folder ++ (slash ∷ t)) (sym (append_assoc name (0 ∷ []) junk)) in
    let size : length (folder ++ (slash ∷ name)) ≡ suc (length name) + length folder =
      omega (arith, length-append folder (slash ∷ name)) in
    rw
      (
        ap strlen text
            ∙ strlen-text (folder ++ (slash ∷ name)) junk (path-Lacks folder name lacks name_lacks),
        size,
      )
      (ap (λ t. last_from (suc (length name) + length folder) t slash) inner
        ∙ last_from-slash folder (name ++ (0 ∷ [])) junk (suc (length name))
            (All-append (λ c. c ≢ slash) name (0 ∷ []) plain (omega arith, tt))
            (omega (arith, length-append name (0 ∷ []))))

getdir-path_array :
    (room : ℕ) (folder name junk : Bytes)
    → Lacks 0 folder
    → Lacks 0 name
    → Lacks slash name
    → 2 ≤ length folder
    → length folder < room
    → getdir room (path_array folder name junk) ≡ some (folder ++ (0 ∷ []))
unfolding getdir folder_of
getdir-path_array room [] name junk lacks name_lacks plain long fits = absurd (omega arith)
getdir-path_array room (a ∷ []) name junk lacks name_lacks plain long fits = absurd (omega arith)
getdir-path_array room (a ∷ b ∷ folder) name junk lacks name_lacks plain long fits =
    rw
      (
        findlch-slash (a ∷ b ∷ folder) name junk lacks name_lacks plain,
        subtract-pos (length (a ∷ b ∷ folder)) (suc (length folder)) 1 (omega arith),
      )
      (cstrcpy-copy_count room (path_array (a ∷ b ∷ folder) name junk) (a ∷ b ∷ folder)
        (length folder) 0
        (copy_count-drop (path_array (a ∷ b ∷ folder) name junk) (a ∷ b ∷ folder)
          (slash ∷ (name ++ (0 ∷ junk))) 0 refl)
        fits)

parsepath-path_array :
    (room : ℕ) (folder name junk : Bytes)
    → Lacks 0 folder
    → Lacks 0 name
    → Lacks slash name
    → 1 ≤ length name
    → length name + 1 < room
    → parsepath room (path_array folder name junk) ≡ some (name ++ (0 ∷ 0 ∷ []))
unfolding parsepath last_name
parsepath-path_array room folder [] junk lacks name_lacks plain filled fits = absurd (omega arith)
parsepath-path_array room folder (c ∷ name) junk lacks name_lacks plain filled fits =
    let stemp = slash ∷ c ∷ (name ++ (0 ∷ junk)) in
    let copied =
      copy_count-drop stemp (c ∷ (name ++ (0 ∷ []))) junk 1
        (ap (λ r. c ∷ r) (sym (append_assoc name (0 ∷ []) junk))) in
    let size : length (name ++ (0 ∷ [])) ≡ suc (length name) =
      omega (arith, length-append name (0 ∷ [])) in
    rw
      (
        findlch-slash folder (c ∷ name) junk lacks name_lacks plain,
        drop-append folder stemp,
        strlen-text (slash ∷ c ∷ name) junk (omega arith, name_lacks),
        subtract-pos (length (slash ∷ c ∷ name)) (suc (length name)) 1 (omega arith),
      )
      (cstrcpy-copy_count room stemp (c ∷ (name ++ (0 ∷ []))) (length name) 1 (rw size at copied)
          (omega arith)
        ∙ ap (λ r. some (c ∷ r)) (append_assoc name (0 ∷ []) (0 ∷ [])))

-- Of an array that holds a path `folder/name`, getdir gives the folder, which may have slashes itself,
-- and parsepath the name. The folder has at least two characters, the name at least one and no slash,
-- and both fit the `room` of the arrays that are written, the name with one byte more than its NUL.
getdir-parsepath :
    (room : ℕ) (folder name junk : Bytes)
    → Lacks 0 folder
    → Lacks 0 name
    → Lacks slash name
    → 2 ≤ length folder
    → 1 ≤ length name
    → length folder < room
    → length name + 1 < room
    → (getdir room (path_array folder name junk) ≡ some (folder ++ (0 ∷ [])))
      × (parsepath room (path_array folder name junk) ≡ some (name ++ (0 ∷ 0 ∷ [])))
getdir-parsepath room folder name junk lacks name_lacks plain long filled fits name_fits = (
  getdir-path_array room folder name junk lacks name_lacks plain long fits,
  parsepath-path_array room folder name junk lacks name_lacks plain filled name_fits,
)
