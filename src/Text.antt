-- ===== src/Text.antt =====
-- The C strings of the program as lists of bytes, and the calls of the C library that its text
-- protocol uses: strtok, atoi, snprintf with "%d", strcmp.
pub mod Number
pub mod Token
use Prim.Native.Char.{code}
use dsproj.Common.{
  ℕ, zero, suc, ◌+◌, ◌-◌, ◌*◌, ◌/◌, ◌%◌, ◌<◌, String, Bool, true, false, ◌&&◌, ◌||◌, Option, none,
  some, List, [], ◌∷◌, ◌++◌, ◌≢◌, ltb, leb, ◌==◌, if◌then◌else◌, take, length, ◌>>=◌, All, ℤ, pos,
  negsuc, neg,
}

abbrev pub Bytes : Type 0
Bytes = List ℕ

-- The bytes of an ASCII literal.
abbrev pub codes : String → Bytes
codes String.[] = []
codes (String.◌∷◌ c s) = code c ∷ codes s

abbrev pub Lacks : ℕ → Bytes → Type 0
Lacks b = All (λ c. c ≢ b)

abbrev pub comma : ℕ
comma = b','

-- The C string at the start of an array: the bytes before the first NUL.
abbrev pub c_str : Bytes → Bytes
c_str [] = []
c_str (zero ∷ s) = []
c_str (suc c ∷ s) = suc c ∷ c_str s

-- strcmp(s, t) == 0
abbrev pub same : Bytes → Bytes → Bool
same [] [] = true
same (a ∷ s) (b ∷ t) = (a == b) && same s t
same _ _ = false

-- The decimal digits of a number below 10 ^ f. An int has at most 10.
digits : ℕ → ℕ → Bytes
digits zero n = []
digits (suc f) n =
    let rest = digits f (n / 10) in
    if ltb n 10 then (b'0' + n) ∷ [] else rest ++ (b'0' + n % 10) ∷ []

-- "%d"
print_d : ℤ → Bytes
print_d (pos n) = digits 10 n
print_d (negsuc n) = b'-' ∷ digits 10 (n + 1)

-- snprintf(buffer, 10, "%d", v) writes at most nine bytes and the NUL.
unfoldable pub snprintf10 : ℤ → Bytes
unfolding print_d digits
snprintf10 v = take 9 (print_d v)

unfoldable pub is_space : ℕ → Bool
is_space c = c == b' ' || (leb 9 c && leb c 13)

abbrev is_digit : ℕ → Bool
is_digit c = leb b'0' c && leb c b'9'

read_digits : ℕ → Bytes → ℕ
read_digits acc [] = acc
read_digits acc (c ∷ s) =
    let more = read_digits (acc * 10 + (c - b'0')) s in if is_digit c then more else acc

read_signed : Bytes → ℤ
read_signed [] = pos 0
read_signed (c ∷ s) =
    if c == b'-'
    then neg (pos (read_digits 0 s))
    else if c == b'+'
    then pos (read_digits 0 s)
    else pos (read_digits 0 (c ∷ s))

skip_space : Bytes → Bytes
skip_space [] = []
skip_space (c ∷ s) = if is_space c then skip_space s else c ∷ s

-- atoi, for texts whose number fits an int.
unfoldable pub atoi : Bytes → ℤ
unfolding read_signed skip_space read_digits is_space
atoi s = read_signed (skip_space s)

abbrev skip_sep : ℕ → Bytes → Bytes
skip_sep sep [] = []
skip_sep sep (c ∷ s) = if c == sep then skip_sep sep s else c ∷ s

-- The bytes up to the next separator, and those behind it.
abbrev cut : ℕ → Bytes → Bytes × Bytes
cut sep [] = ([], [])
cut sep (c ∷ s) = let (tok, rest) = cut sep s in if c == sep then ([], s) else (c ∷ tok, rest)

abbrev token_at : ℕ → Bytes → Option (Bytes × Bytes)
token_at sep [] = none
token_at sep (c ∷ s) = some (cut sep (c ∷ s))

-- strtok with one separator: the next token and what the later calls read, or NULL.
unfoldable pub strtok : ℕ → Bytes → Option (Bytes × Bytes)
strtok sep s = token_at sep (skip_sep sep s)

-- `ptr = strtok(…, ","); v = atoi(ptr);`
abbrev pub number : Bytes → Option (ℤ × Bytes)
number s = do (tok, rest) ← strtok comma s; some (atoi tok, rest)

-- A text in a char array of that size; past its end the writing is undefined.
abbrev pub within : ℕ → Bytes → Option Bytes
within size text = if ltb (length text) size then some text else none

-- Each text followed by a comma, as `strcat(buf, x); strcat(buf, ",");` builds it.
abbrev pub csv : List Bytes → Bytes
csv [] = []
csv (f ∷ fs) = f ++ (comma ∷ csv fs)
