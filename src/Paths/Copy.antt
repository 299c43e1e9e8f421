-- ===== src/Paths/Copy.antt =====
-- The copying loops of cstrcpy (dd.c), inside and outside of the array.
use dsproj.Common.{
  ℕ, zero, suc, ◌+◌, ◌<◌, ◌≡◌, refl, ap, ◌∙◌, arith, pos, none, some, [], ◌∷◌, ◌++◌, length,
  get_elem?, drop, ==_false, le→leb,
}
use dsproj.Text.{Bytes, Lacks}
use dsproj.Paths.{cstrcpy, subtract, copy_count, copy_all, findfch, slash, strlen}

pub drop_at :
    (k : ℕ) (xs : Bytes) {x : ℕ} {r : Bytes}
    → drop k xs ≡ x ∷ r
    → (get_elem? xs k ≡ some x) × (drop (suc k) xs ≡ r)
drop_at zero [] e = cc
drop_at zero (y ∷ xs) e = grind arith
drop_at (suc k) [] e = cc
drop_at (suc k) (y ∷ xs) e = drop_at k xs e

pub drop_end : (k : ℕ) (xs : Bytes) → drop k xs ≡ [] → get_elem? xs k ≡ none
drop_end zero [] e = refl
drop_end zero (y ∷ xs) e = cc
drop_end (suc k) [] e = refl
drop_end (suc k) (y ∷ xs) e = drop_end k xs e

pub drop-append : (xs ys : Bytes) → drop (length xs) (xs ++ ys) ≡ ys
drop-append [] ys = refl
drop-append (x ∷ xs) ys = drop-append xs ys

pub copy_count-drop :
    (stemp mid back : Bytes) (k : ℕ)
    → drop k stemp ≡ mid ++ back
    → copy_count stemp (length mid) k ≡ some mid
unfolding copy_count
copy_count-drop stemp [] back k e = refl
copy_count-drop stemp (x ∷ mid) back k e =
    let (here, next) = drop_at k stemp e in rw (here, copy_count-drop stemp mid back (suc k) next)

-- It copies as many bytes as the text has that it tests.
pub copy_all-drop :
    (stemp text junk mid back : Bytes) (k : ℕ)
    → Lacks 0 text
    → length mid ≡ length text
    → drop k stemp ≡ mid ++ back
    → copy_all stemp (text ++ 0 ∷ junk) k ≡ some mid
unfolding copy_all
copy_all-drop stemp [] junk [] back k lacks len e = refl
copy_all-drop stemp [] junk (x ∷ mid) back k lacks len e = absurd (omega arith)
copy_all-drop stemp (c ∷ text) junk [] back k lacks len e = absurd (omega arith)
copy_all-drop stemp (c ∷ text) junk (x ∷ mid) back k (nul, lacks) len e =
    let (here, next) = drop_at k stemp e in
    rw (
      ==_false c 0 nul,
      here,
      copy_all-drop stemp text junk mid back (suc k) lacks (omega arith) next,
    )

-- With fewer bytes from k on than the text has, it leaves the array.
pub copy_all_past :
    (stemp text junk mid : Bytes) (k : ℕ)
    → Lacks 0 text
    → length mid < length text
    → drop k stemp ≡ mid
    → copy_all stemp (text ++ 0 ∷ junk) k ≡ none
unfolding copy_all
copy_all_past stemp [] junk mid k lacks len e = absurd (omega arith)
copy_all_past stemp (c ∷ text) junk [] k (nul, lacks) len e =
    rw (==_false c 0 nul, drop_end k stemp e)
copy_all_past stemp (c ∷ text) junk (x ∷ mid) k (nul, lacks) len e =
    let (here, next) = drop_at k stemp e in
    rw (==_false c 0 nul, here, copy_all_past stemp text junk mid (suc k) lacks (omega arith) next)

pub strlen-text :
    (text junk : Bytes) → Lacks 0 text → strlen (text ++ 0 ∷ junk) ≡ some (length text)
unfolding strlen
strlen-text [] junk lacks = refl
strlen-text (c ∷ text) junk (nul, lacks) = rw (==_false c 0 nul, strlen-text text junk lacks)

pub findfch-slash :
    (i : ℕ) (root tail : Bytes)
    → Lacks 0 root
    → Lacks slash root
    → findfch i (root ++ slash ∷ tail) slash ≡ some (pos (i + length root + 1))
unfolding findfch
findfch-slash i [] tail lacks plain = ap (λ k. some (pos k)) (omega arith)
findfch-slash i (c ∷ root) tail (nul, lacks) (ne, plain) =
    rw (==_false c 0 nul, ==_false c slash ne)
      (findfch-slash (i + 1) root tail lacks plain ∙ ap (λ k. some (pos k)) (omega arith))

pub cstrcpy-copy_count :
    (room : ℕ) (stemp copied : Bytes) (n k : ℕ)
    → copy_count stemp (suc (suc n)) k ≡ some copied
    → length copied < room
    → cstrcpy room stemp k (pos (suc n)) ≡ some (copied ++ (0 ∷ []))
unfolding cstrcpy
cstrcpy-copy_count room stemp copied n k e fits =
    rw (e, le→leb (length copied + 1) room (omega arith)) refl

pub cstrcpy-copy_all :
    (room : ℕ) (stemp copied : Bytes) (k : ℕ)
    → copy_all stemp stemp k ≡ some copied
    → length copied < room
    → cstrcpy room stemp k (pos 0) ≡ some (copied ++ (0 ∷ []))
unfolding cstrcpy
cstrcpy-copy_all room stemp copied k e fits =
    rw (e, le→leb (length copied + 1) room (omega arith)) refl

pub subtract-pos : (m n k : ℕ) → m ≡ n + k → subtract (pos m) k ≡ pos n
unfolding subtract
subtract-pos m n k e = rw (le→leb k m (omega arith)) (ap pos (omega arith))
