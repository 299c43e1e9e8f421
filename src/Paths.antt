-- ===== src/Paths.antt =====
-- The path functions of dd.c, on arrays of bytes: a read or a write outside of its array is `none`.
pub mod Copy
pub mod Split
pub mod Cut
use dsproj.Common.{
  ℕ, zero, suc, ◌+◌, ◌-◌, ℤ, pos, negsuc, minus_one, Bool, true, false, ◌==◌, leb, if◌then◌else◌,
  Option, none, some, ◌>>=◌, ◌>>◌, List, [], ◌∷◌, ◌++◌, length, get_elem?, drop, neg, defined_if,
}
use dsproj.Text.{Bytes, codes, c_str}

-- strlen: the array must hold a NUL.
unfoldable pub strlen : Bytes → Option ℕ
strlen [] = none
strlen (c ∷ s) = let rest = strlen s in if c == 0 then some 0 else rest >>= λ n. some (suc n)

-- The loop `while (i <= ilen)`, with `n` rounds left; `k` is start + i.
unfoldable pub copy_count : Bytes → ℕ → ℕ → Option Bytes
copy_count stemp zero k = some []
copy_count stemp (suc n) k = do
  c ← get_elem? stemp k
  rest ← copy_count stemp n (suc k)
  some (c ∷ rest)

-- The loop `while (stemp[i] != EOS)`, which tests at i and copies from start + i: the second list is
-- stemp from i on, `k` is start + i.
unfoldable pub copy_all : Bytes → Bytes → ℕ → Option Bytes
copy_all stemp [] k = none
copy_all stemp (c ∷ s) k =
    let rest = copy_all stemp s (suc k) in
    if c == 0 then some [] else do d ← get_elem? stemp k; more ← rest; some (d ∷ more)

-- What is behind a copy: EOS, if that is in the array `sret` too, of `room` bytes.
abbrev pub ended : ℕ → Bytes → Option Bytes
ended room copied = do defined_if (leb (length copied + 1) room); some (copied ++ 0 ∷ [])

-- The bytes that cstrcpy writes to `sret`. With ilen 0 it copies as many bytes as stemp has.
unfoldable pub cstrcpy : ℕ → Bytes → ℕ → ℤ → Option Bytes
unfolding copy_count copy_all
cstrcpy room stemp start (pos zero) = copy_all stemp stemp start >>= ended room
cstrcpy room stemp start (pos (suc n)) = copy_count stemp (suc (suc n)) start >>= ended room
cstrcpy room stemp start (negsuc n) = ended room []

-- The place behind the first `ctemp`, or -1.
unfoldable pub findfch : ℕ → Bytes → ℕ → Option ℤ
findfch i [] ctemp = none
findfch i (c ∷ s) ctemp =
    let rest = findfch (i + 1) s ctemp in
    if c == 0 then some minus_one else if c == ctemp then some (pos (i + 1)) else rest

-- The loop of findlch down from i.
unfoldable pub last_from : ℕ → Bytes → ℕ → Option ℤ
last_from zero stemp ctemp =
    get_elem? stemp 0 >>= λ c. some (if c == ctemp then pos 0 else minus_one)
last_from (suc i) stemp ctemp =
    let rest = last_from i stemp ctemp in
    get_elem? stemp (suc i) >>= λ c. if c == ctemp then some (pos (suc i)) else rest

unfoldable pub findlch : Bytes → ℕ → Option ℤ
findlch stemp ctemp = strlen stemp >>= λ i. last_from i stemp ctemp

abbrev pub slash : ℕ
slash = b'/'

unfoldable pub subtract : ℤ → ℕ → ℤ
subtract (pos n) k = if leb k n then pos (n - k) else neg (pos (k - n))
subtract (negsuc n) k = negsuc (n + k)

-- The root folder's name. Without a slash ipos is -1.
unfoldable pub parserpath : ℕ → Bytes → Option Bytes
unfolding subtract
parserpath room vpath = do ipos ← findfch 0 vpath slash; cstrcpy room vpath 0 (subtract ipos 2)

unfoldable pub removed : ℕ → Bytes → ℤ → Option Bytes
removed room vpath (pos ipos) = cstrcpy room vpath ipos (pos 0)
removed room vpath (negsuc _) = none

-- The path without the root folder. Without a slash the copy starts before the array.
unfoldable pub removepath : ℕ → Bytes → Option Bytes
unfolding removed
removepath room vpath = findfch 0 vpath slash >>= removed room vpath

unfoldable pub last_name : ℕ → Bytes → ℤ → Option Bytes
unfolding subtract
last_name room vpath (pos i) =
    let stemp = drop i vpath in
    strlen stemp >>= λ ilen. cstrcpy room stemp 1 (subtract (pos ilen) 1)
last_name room vpath (negsuc _) = none

-- The last name. Without a slash strlen gets NULL.
unfoldable pub parsepath : ℕ → Bytes → Option Bytes
unfolding last_name
parsepath room vpath = findlch vpath slash >>= last_name room vpath

unfoldable pub folder_of : ℕ → Bytes → ℤ → Option Bytes
unfolding subtract
folder_of room vpath (pos ipos) = cstrcpy room vpath 0 (subtract (pos ipos) 1)
folder_of room vpath (negsuc _) = some (codes "home" ++ 0 ∷ [])

-- The folder of a path; "home" without a slash.
unfoldable pub getdir : ℕ → Bytes → Option Bytes
unfolding folder_of
getdir room vpath = findlch vpath slash >>= folder_of room vpath
