-- ===== src/Client/Dir.antt =====
-- readdir of client.c.
use dsproj.Common.{
  ℕ, zero, suc, ◌*◌, ◌^◌, ltb, ℤ, pos, negsuc, Option, none, some, List, [], ◌∷◌, length, ◌>>=◌,
  ◌>>◌, defined_if,
}
use dsproj.Text.{Bytes, codes, comma, strtok}
use dsproj.Posix.{Posix}
use dsproj.Client.{Answer, within, my_path, received, number, transact, with_reply_into}

-- What `filler` is given for one entry.
pub record Filled : Type 0 where
  pub name : Bytes
  pub st_ino : ℤ
  pub st_mode : ℤ

-- `v << 12` on an int: defined for a value that is not negative and stays in 31 bits.
unfoldable pub shift12 : ℤ → Option ℤ
shift12 (pos n) = defined_if (ltb (n * 2 ^ 12) (2 ^ 31)) >> some (pos (n * 2 ^ 12))
shift12 (negsuc n) = none

-- The loop over the entries, with fuel: each takes three tokens, and the name must fit char[100].
-- `filler` takes every entry.
unfoldable pub read_entries : ℕ → Bytes → Option (List Filled)
read_entries zero s = none
read_entries (suc fuel) s = elim (strtok comma s) [
  | none ↦ some []
  | some (val, s1) ↦ do
    name ← within 100 val
    (ino, s2) ← number s1
    (mode, s3) ← number s2
    st_mode ← shift12 mode
    rest ← read_entries fuel s3
    some (record { name = name; st_ino = ino; st_mode = st_mode } ∷ rest)
]

unfoldable pub read_readdir : Bytes → Option (ℤ × Option (List Filled))
unfolding read_entries
read_readdir buf = do
  (errno, s) ← number buf
  entries ← read_entries (suc (length s)) s
  some (pos 0, some entries)

module _ {S : Type 0} (os : Posix S) (namenode : Bytes) (answer : Answer) where
  unfoldable pub xmp_readdir : Bytes → S → Option (ℤ × Option (List Filled))
  unfolding read_readdir
  xmp_readdir path s = do
    text ← within 100 (my_path path)
    r ← transact os namenode answer (codes "readdir") text s
    with_reply_into (λ msg. received 10000 msg >>= read_readdir) r
