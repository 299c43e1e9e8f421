-- ===== src/RoundTrip/Link.antt =====
-- The target of a link in the buffer of FUSE: xmp_readlink of client.c.
use dsproj.Common.{
  ℕ, zero, suc, ◌+◌, ◌-◌, ◌^◌, ◌%◌, ◌<◌, ◌≤◌, ◌≡◌, refl, ◌∙◌, ap, arith, lt→ltb, pos, some, [], ◌∷◌,
  ◌++◌, set, drop, take, length,
}
use dsproj.Text.{Bytes, Lacks, c_str}
use dsproj.RoundTrip.Buffer.{Lacks-take}
use dsproj.Client.Local.{Local, filled, end_at, to_int, signed, xmp_readlink}

-- The documented behaviour of readlink on a link with that target, with a buffer of at least one byte:
-- it puts as many bytes of it in the buffer as there is room for, and returns their number.
abbrev pub IsReadlink : {S : Type 0} → Local S → Bytes → Bytes → S → Type 0
IsReadlink local path target s =
    (bufsiz : ℕ)
    → 0 < bufsiz
    → ((local.readlink path bufsiz s).1 ≡ take bufsiz target)
      × ((local.readlink path bufsiz s).0.res ≡ pos (length (take bufsiz target)))

-- A NUL behind the bytes that were put in a longer buffer.
set-filled :
    (bytes buf : Bytes)
    → length bytes < length buf
    → set (filled buf bytes) (length bytes) 0 ≡ bytes ++ (0 ∷ drop (suc (length bytes)) buf)
set-filled [] [] h = absurd (omega arith)
set-filled [] (c ∷ buf) h = refl
set-filled (b ∷ bytes) [] h = absurd (omega arith)
set-filled (b ∷ bytes) (c ∷ buf) h = ap (λ r. b ∷ r) (set-filled bytes buf (omega arith))

length-filled :
    (bytes buf : Bytes) → length bytes < length buf → length bytes < length (filled buf bytes)
length-filled [] [] h = absurd (omega arith)
length-filled [] (c ∷ buf) h = h
length-filled (b ∷ bytes) [] h = absurd (omega arith)
length-filled (b ∷ bytes) (c ∷ buf) h = omega (arith, length-filled bytes buf (omega arith))

length-set : (xs : Bytes) (i y : ℕ) → length (set xs i y) ≡ length xs
length-set [] i y = refl
length-set (x ∷ xs) zero y = refl
length-set (x ∷ xs) (suc i) y = ap suc (length-set xs i y)

length-filled_same :
    (bytes buf : Bytes) → length bytes < length buf → length (filled buf bytes) ≡ length buf
length-filled_same [] buf h = refl
length-filled_same (b ∷ bytes) [] h = absurd (omega arith)
length-filled_same (b ∷ bytes) (c ∷ buf) h = ap suc (length-filled_same bytes buf (omega arith))

c_str-ended : (bytes rest : Bytes) → Lacks 0 bytes → c_str (bytes ++ (0 ∷ rest)) ≡ bytes
c_str-ended [] rest h = refl
c_str-ended (zero ∷ bytes) rest h = absurd (h.0 refl)
c_str-ended (suc b ∷ bytes) rest h = ap (λ r. suc b ∷ r) (c_str-ended bytes rest h.1)

end_at-filled :
    (bytes buf : Bytes)
    → length bytes < length buf
    → end_at (filled buf bytes) (pos (length bytes))
      ≡ some (set (filled buf bytes) (length bytes) 0)
end_at-filled bytes buf h =
    rw (lt→ltb (length bytes) (length (filled buf bytes)) (length-filled bytes buf h)) refl

length-take_room : (size : ℕ) (s : Bytes) → length (take size s) ≤ size
length-take_room zero s = omega arith
length-take_room (suc n) [] = omega arith
length-take_room (suc n) (c ∷ s) = omega (arith, length-take_room n s)

size_before : (size : ℕ) → 1 < size → size < 2 ^ 31 → (size + (2 ^ 64 - 1)) % 2 ^ 64 ≡ size - 1
size_before size h k = omega arith

to_int-pos : (n : ℕ) → n < 2 ^ 31 → to_int (pos n) ≡ pos n
unfolding to_int signed
to_int-pos n h = let kept : n % 2 ^ 32 ≡ n = omega arith in rw kept (rw (lt→ltb n (2 ^ 31) h) refl)

-- On a link whose target has no NUL, with the buffer of FUSE and its size, at least 2 and below 2^31,
-- and a readlink that behaves as documented, xmp_readlink stays in the buffer: it returns 0, the
-- buffer keeps its size, and holds the target as a C string, cut to one byte less than the size.
pub xmp_readlink-target :
    {S : Type 0} (local : Local S) (path target buf : Bytes) (size : ℕ) (s : S)
    → IsReadlink local path target s
    → Lacks 0 target
    → length buf ≡ size
    → 1 < size
    → size < 2 ^ 31
    → (buf' : Bytes) × (s' : S) × (xmp_readlink local path buf size s ≡ some (pos 0, buf', s'))
      × (length buf' ≡ size)
      × (c_str buf' ≡ take (size - 1) target)
unfolding xmp_readlink
xmp_readlink-target local path target buf size s documented no_nul whole positive small =
    let bytes = take (size - 1) target in
    let room : length bytes < length buf =
      omega (arith, length-take_room (size - 1) target, whole) in
    let (put, counted) = documented (size - 1) (omega arith) in
    let target_end = set-filled bytes buf room in
    (
      set (filled buf bytes) (length bytes) 0,
      (local.readlink path (size - 1) s).2,
      rw
          (
            size_before size positive small,
            counted,
            put,
            to_int-pos (length bytes) (omega (arith, length-take_room (size - 1) target)),
            end_at-filled bytes buf room,
          )
          refl,
      length-set (filled buf bytes) (length bytes) 0 ∙ length-filled_same bytes buf room ∙ whole,
      rw target_end (c_str-ended bytes _ (Lacks-take 0 (size - 1) target no_nul)),
    )
