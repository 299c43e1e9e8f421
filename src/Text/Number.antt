-- ===== src/Text/Number.antt =====
-- Printing by snprintf(…, 10, "%d", …) and reading by atoi.
use mathlib.Core.List.{cons-ne-nil, concat-ne-nil}
use native.Mathlib.Nat.{pow-suc}
use native.Mathlib.Numerals.{add-one}
use dsproj.Common.{
  All-map, ℕ, zero, suc, ◌+◌, ◌-◌, ◌*◌, ◌/◌, ◌%◌, ◌^◌, ◌<◌, ◌≤◌, ◌≡◌, ◌≢◌, refl, ◌∙◌, ap, [], ◌∷◌,
  ◌++◌, arith, ltb, Bool-cases, inl, inr, All, All-append, ℤ, pos, negsuc, neg, length,
  length-append, take-all, take-append, take, minus_one,
}
use dsproj.Text.{Bytes, codes, Lacks, comma, digits, print_d, snprintf10, atoi, read_digits}

abbrev pub IsDigit : ℕ → Type 0
IsDigit c = (b'0' ≤ c) × (c ≤ b'9')

pow_step : (f : ℕ) → 10 ^ suc f ≡ 10 ^ f * 10
pow_step f = pow-suc 10 f

digits-IsDigit : (f n : ℕ) → All IsDigit (digits f n)
unfolding digits
digits-IsDigit zero n = tt
digits-IsDigit (suc f) n = elim (Bool-cases (ltb n 10)) [
  | inl e ↦ rw e (ground arith)
  | inr e ↦
      rw e (All-append IsDigit (digits f (n / 10)) _ (digits-IsDigit f (n / 10)) (ground arith))
]

read-append :
    (acc : ℕ) (s t : Bytes)
    → All IsDigit s
    → read_digits acc (s ++ t) ≡ read_digits (read_digits acc s) t
unfolding read_digits
read-append acc [] t h = refl
read-append acc (c ∷ s) t (hc, h) = ground (arith, read-append (acc * 10 + (c - b'0')) s t h)

read_last : (acc d : ℕ) → d < 10 → read_digits acc ((b'0' + d) ∷ []) ≡ acc * 10 + d
unfolding read_digits
read_last acc d h = ground arith

read-digits : (f n : ℕ) → n < 10 ^ f → read_digits 0 (digits f n) ≡ n
unfolding digits
read-digits zero n h = unfold read_digits in omega arith
read-digits (suc f) n h = elim (Bool-cases (ltb n 10)) [
  | inl e ↦ rw e (read_last 0 n (ground arith) ∙ omega arith)
  | inr e ↦ rw e (
      read-append 0 (digits f (n / 10)) _ (digits-IsDigit f (n / 10))
      ∙ read_last (read_digits 0 (digits f (n / 10))) (n % 10) (omega arith)
      ∙ omega (arith, read-digits f (n / 10) (omega (arith, pow_step f))))
]

length-digits : (f j n : ℕ) → n < 10 ^ suc j → length (digits f n) ≤ suc j
unfolding digits
length-digits zero j n h = omega arith
length-digits (suc f) zero n h = elim (Bool-cases (ltb n 10)) [
  | inl e ↦ rw e (omega arith)
  | inr e ↦ absurd (ground arith)
]
length-digits (suc f) (suc j) n h = elim (Bool-cases (ltb n 10)) [
  | inl e ↦ rw e (omega arith)
  | inr e ↦
      rw (e, length-append)
        (omega (arith, length-digits f j (n / 10) (omega (arith, pow_step (suc j)))))
]

digits_split : (f n : ℕ) → 10 ≤ n → digits (suc f) n ≡ digits f (n / 10) ++ (b'0' + n % 10) ∷ []
unfolding digits
digits_split f n h = ground arith

pow_pos : (f : ℕ) → 1 ≤ 10 ^ f
pow_pos zero = omega arith
pow_pos (suc f) = omega (arith, pow_pos f, pow_step f)

length-digits_exact : (f n : ℕ) → 10 ^ f ≤ n → length (digits (suc f) n) ≡ suc f
unfolding digits
length-digits_exact zero n h = ground arith
length-digits_exact (suc f) n h = elim (Bool-cases (ltb n 10)) [
  | inl e ↦ absurd (ground (arith, pow_step f, pow_pos f))
  | inr e ↦
      rw (e, length-append)
        (omega (arith, length-digits_exact f (n / 10) (omega (arith, pow_step f))))
]

digits-ne-nil : (f n : ℕ) → digits (suc f) n ≢ []
unfolding digits
digits-ne-nil f n = elim (Bool-cases (ltb n 10)) [
  | inl e ↦ rw e (cons-ne-nil _ _)
  | inr e ↦ rw e (concat-ne-nil _ (digits f (n / 10)))
]

-- A text of digits is read from its first byte.
atoi-digits : (s : Bytes) → All IsDigit s → s ≢ [] → atoi s ≡ pos (read_digits 0 s)
unfolding atoi
atoi-digits [] h ne = absurd (ne refl)
atoi-digits (c ∷ s) (hc, h) ne = ground arith

-- The ints whose decimal text has at most nine bytes.
abbrev pub IsShort : ℤ → Type 0
IsShort (pos n) = n < 10 ^ 9
IsShort (negsuc n) = n + 1 < 10 ^ 8

print-snprintf10 : (v : ℤ) → IsShort v → snprintf10 v ≡ print_d v
unfolding snprintf10 print_d
print-snprintf10 (pos n) h = take-all 9 (digits 10 n) (length-digits 10 8 n h)
print-snprintf10 (negsuc n) h =
    take-all 9 (b'-' ∷ digits 10 (n + 1)) (omega (arith, length-digits 10 7 (n + 1) h))

atoi-neg : (s : Bytes) → atoi (b'-' ∷ s) ≡ neg (pos (read_digits 0 s))
unfolding atoi
atoi-neg s = refl

atoi-print_d : (v : ℤ) → IsShort v → atoi (print_d v) ≡ v
unfolding print_d
atoi-print_d (pos n) h =
    atoi-digits (digits 10 n) (digits-IsDigit 10 n) (digits-ne-nil 9 n)
    ∙ ap pos (read-digits 10 n (omega arith))
atoi-print_d (negsuc n) h =
    atoi-neg (digits 10 (n + 1))
    ∙ ap (λ m. neg (pos m)) (read-digits 10 (n + 1) (omega arith) ∙ add-one n)

-- An int whose text fits the nine bytes of the buffer is read back by atoi.
pub atoi-snprintf10 : (v : ℤ) → IsShort v → atoi (snprintf10 v) ≡ v
atoi-snprintf10 v h = rw (print-snprintf10 v h) (atoi-print_d v h)

snprintf10_split : (n : ℕ) → 10 ^ 9 ≤ n → snprintf10 (pos n) ≡ digits 9 (n / 10)
unfolding snprintf10 print_d
snprintf10_split n h =
    rw (digits_split 9 n (omega arith))
      (take-append 9 (digits 9 (n / 10)) _ (length-digits_exact 8 (n / 10) (omega arith)))

-- A number of ten digits loses its last digit: the peer reads a tenth of it.
pub atoi-snprintf10_cut :
    (n : ℕ) → 10 ^ 9 ≤ n → n < 10 ^ 10 → atoi (snprintf10 (pos n)) ≡ pos (n / 10)
atoi-snprintf10_cut n h k = rw (snprintf10_split n h) (
    atoi-digits (digits 9 (n / 10)) (digits-IsDigit 9 (n / 10)) (digits-ne-nil 8 (n / 10))
    ∙ ap pos (read-digits 9 (n / 10) (omega arith)))

-- A text that strtok takes whole and that a C string can hold.
pub record IsField (s : Bytes) : Type 0 where
  pub no_comma : Lacks comma s
  pub no_nul : Lacks 0 s
  pub not_empty : s ≢ []

abbrev pub IsPrint : ℕ → Type 0
IsPrint c = (b'-' ≤ c) × (c ≤ b'9')

All-take : (P : ℕ → Type 0) (k : ℕ) (s : Bytes) → All P s → All P (take k s)
All-take P zero s h = tt
All-take P (suc k) [] h = tt
All-take P (suc k) (c ∷ s) (hc, h) = (hc, All-take P k s h)

print_d-IsPrint : (v : ℤ) → All IsPrint (print_d v)
unfolding print_d
print_d-IsPrint (pos n) =
    All-map _ _ (λ c (h : IsDigit c). (omega arith, omega arith)) (digits 10 n)
      (digits-IsDigit 10 n)
print_d-IsPrint (negsuc n) = (
  (omega arith, omega arith),
  All-map _ _ (λ c (h : IsDigit c). (omega arith, omega arith)) (digits 10 (n + 1))
      (digits-IsDigit 10 (n + 1)),
)

take-ne-nil : (k : ℕ) (s : Bytes) → s ≢ [] → take (suc k) s ≢ []
take-ne-nil k [] h = absurd (h refl)
take-ne-nil k (c ∷ s) h = cons-ne-nil _ _

print_d-ne-nil : (v : ℤ) → print_d v ≢ []
unfolding print_d
print_d-ne-nil (pos n) = digits-ne-nil 9 n
print_d-ne-nil (negsuc n) = cons-ne-nil _ _

pub snprintf10-IsPrint : (v : ℤ) → All IsPrint (snprintf10 v)
unfolding snprintf10
snprintf10-IsPrint v = All-take IsPrint 9 (print_d v) (print_d-IsPrint v)

pub snprintf10-IsField : (v : ℤ) → IsField (snprintf10 v)
unfolding snprintf10
snprintf10-IsField v =
    let p = snprintf10-IsPrint v in
    record {
      no_comma = All-map _ _ (λ c (h : IsPrint c). omega arith) _ p;
      no_nul = All-map _ _ (λ c (h : IsPrint c). omega arith) _ p;
      not_empty = take-ne-nil 8 (print_d v) (print_d-ne-nil v);
    }

length-take : (k : ℕ) (s : Bytes) → length (take k s) ≤ k
length-take zero s = omega arith
length-take (suc k) [] = omega arith
length-take (suc k) (c ∷ s) = omega (arith, length-take k s)

pub length-snprintf10 : (v : ℤ) → length (snprintf10 v) ≤ 9
unfolding snprintf10
length-snprintf10 v = length-take 9 (print_d v)

pub snprintf10-minus_one : snprintf10 minus_one ≡ codes "-1"
unfolding snprintf10 print_d digits
snprintf10-minus_one = refl

-- A digit behind a printed number is read as its last digit.
pub atoi-digit_behind :
    (e t : ℕ)
    → e < 10 ^ 9
    → t < 10
    → atoi (snprintf10 (pos e) ++ (b'0' + t) ∷ []) ≡ pos (e * 10 + t)
atoi-digit_behind e t h k = rw (print-snprintf10 (pos e) h) (
    unfold print_d in
    (atoi-digits (digits 10 e ++ (b'0' + t) ∷ [])
        (All-append IsDigit (digits 10 e) _ (digits-IsDigit 10 e) ((omega arith, omega arith), tt))
        (concat-ne-nil _ (digits 10 e))
      ∙ ap pos (
          read-append 0 (digits 10 e) _ (digits-IsDigit 10 e)
          ∙ read_last (read_digits 0 (digits 10 e)) t k
          ∙ omega (arith, read-digits 10 e (omega arith)))))
