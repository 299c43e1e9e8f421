-- ===== src/RoundTrip/Buffer.antt =====
-- Numbers in a text, and a text in a receiving buffer.
use dsproj.Common.{
  ℕ, zero, suc, ◌+◌, ◌-◌, ◌<◌, ◌≤◌, ◌≡◌, ◌≢◌, refl, ap, arith, ℤ, some, List, [], ◌∷◌, ◌++◌, lt→ltb,
  none, ltb, false, if◌then◌else◌, length, length-append, take, take-all, drop, All, All-append,
  pos, eq_ℤ, minus_one, neg,
}
use dsproj.Text.{Bytes, Lacks, comma, c_str, snprintf10, atoi, strtok, csv}
use dsproj.Text.Number.{IsShort, IsField, snprintf10-IsField, atoi-snprintf10, length-snprintf10}
use dsproj.Text.Token.{strtok-field, strtok-last}
use dsproj.Posix.{Call}
use dsproj.Client.{number, within, received, received_over}

pub strtok-IsField :
    (s rest : Bytes) → IsField s → strtok comma (s ++ (comma ∷ rest)) ≡ some (s, rest)
strtok-IsField s rest h = strtok-field comma s rest h.not_empty h.no_comma

-- What is read of a printed number.
abbrev pub seen : ℤ → ℤ
seen v = atoi (snprintf10 v)

pub number-seen :
    (v : ℤ) (rest : Bytes) → number (snprintf10 v ++ (comma ∷ rest)) ≡ some (seen v, rest)
number-seen v rest = rw (strtok-IsField (snprintf10 v) rest (snprintf10-IsField v))

pub number-seen_last : (v : ℤ) → number (snprintf10 v) ≡ some (seen v, [])
number-seen_last v =
    let f = snprintf10-IsField v in rw (strtok-last comma (snprintf10 v) f.not_empty f.no_comma)

-- A printed number is read, up to the comma behind it.
pub number-field :
    (v : ℤ) (rest : Bytes) → IsShort v → number (snprintf10 v ++ (comma ∷ rest)) ≡ some (v, rest)
number-field v rest h =
    rw (strtok-IsField (snprintf10 v) rest (snprintf10-IsField v), atoi-snprintf10 v h)

pub number-last : (v : ℤ) → IsShort v → number (snprintf10 v) ≡ some (v, [])
number-last v h =
    let f = snprintf10-IsField v in
    rw (strtok-last comma (snprintf10 v) f.not_empty f.no_comma, atoi-snprintf10 v h)

pub c_str-Lacks : (s t : Bytes) → Lacks 0 s → c_str (s ++ t) ≡ s ++ c_str t
c_str-Lacks [] t h = refl
c_str-Lacks (zero ∷ s) t h = absurd (h.0 refl)
c_str-Lacks (suc c ∷ s) t h = ap (λ r. suc c ∷ r) (c_str-Lacks s t h.1)

c_str_self : (s : Bytes) → Lacks 0 s → c_str s ≡ s
c_str_self [] h = refl
c_str_self (zero ∷ s) h = absurd (h.0 refl)
c_str_self (suc c ∷ s) h = ap (λ r. suc c ∷ r) (c_str_self s h.1)

pub within-fits : (size : ℕ) (s : Bytes) → length s < size → within size s ≡ some s
within-fits size s h = rw (lt→ltb (length s) size h)

-- A text shorter than a cleared buffer is received as it was sent.
pub received-text : (size : ℕ) (s : Bytes) → Lacks 0 s → length s < size → received size s ≡ some s
received-text size s h k = rw (take-all size s (omega arith), c_str_self s h) (within-fits size s k)

pub Lacks-take : (b size : ℕ) (s : Bytes) → Lacks b s → Lacks b (take size s)
Lacks-take b zero s h = tt
Lacks-take b (suc n) [] h = tt
Lacks-take b (suc n) (c ∷ s) (hc, h) = (hc, Lacks-take b n s h)

length-take_exact : (size : ℕ) (s : Bytes) → size ≤ length s → length (take size s) ≡ size
length-take_exact zero s h = refl
length-take_exact (suc n) [] h = absurd (omega arith)
length-take_exact (suc n) (c ∷ s) h = ap suc (length-take_exact n s (omega arith))

ltb_self : (n : ℕ) → ltb n n ≡ false
ltb_self n = ground arith

-- A text that fills the buffer leaves no NUL in it.
pub received-overflow :
    (size : ℕ) (s : Bytes) → Lacks 0 s → size ≤ length s → received size s ≡ none
received-overflow size s h k =
    rw (c_str_self (take size s) (Lacks-take 0 size s h), length-take_exact size s k, ltb_self size)

length-drop : (n : ℕ) (s : Bytes) → length (drop n s) ≡ length s - n
length-drop zero s = omega arith
length-drop (suc n) [] = omega arith
length-drop (suc n) (c ∷ s) = omega (arith, length-drop n s)

-- In a buffer that is not cleared the text runs on into the old bytes behind it.
pub received_over-text :
    (size : ℕ) (old s t : Bytes)
    → Lacks 0 s
    → c_str (drop (length s) old) ≡ t
    → length s < size
    → length old ≤ size
    → length s + length t < size
    → received_over size old s ≡ some (s ++ t)
received_over-text size old s t h e k l m =
    let front : take size s ≡ s = take-all size s (omega arith) in
    let whole : take size (s ++ drop (length s) old) ≡ s ++ drop (length s) old =
      take-all size _
        (omega (arith, length-append s (drop (length s) old), length-drop (length s) old)) in
    rw (front, whole, c_str-Lacks s (drop (length s) old) h, e)
      (within-fits size (s ++ t) (omega (arith, length-append s t)))

-- Two printed numbers and the separators stay far below the buffers.
pub length-csv2 : (v w : ℤ) → length (csv (snprintf10 v ∷ snprintf10 w ∷ [])) ≤ 20
length-csv2 v w =
    rw (length-append, length-append) (omega (arith, length-snprintf10 v, length-snprintf10 w))

pub csv-Lacks : (fs : List Bytes) → All (Lacks 0) fs → Lacks 0 (csv fs)
csv-Lacks [] h = tt
csv-Lacks (f ∷ fs) (hf, h) =
    All-append (λ c. c ≢ 0) f (comma ∷ csv fs) hf (omega arith, csv-Lacks fs h)

-- What an operation returns for the result of a system call: -errno if it failed, else 0.
abbrev pub fuse_status : Call → ℤ
fuse_status c = if eq_ℤ c.res minus_one then neg c.errno else pos 0

-- Both numbers of a result have at most nine characters.
abbrev pub IsShortCall : Call → Type 0
IsShortCall c = IsShort c.res × IsShort c.errno
