-- ===== src/Client/Files.antt =====
-- read and write of client.c. Their buffers are not cleared before a reply.
use dsproj.Common.{
  ℤ, pos, negsuc, minus_one, eq_ℤ, neg, leb, if◌then◌else◌, Option, none, some, ◌∷◌, ◌++◌, length,
  ◌>>=◌, ◌>>◌, defined_if,
}
use dsproj.Text.{Bytes, codes, comma, snprintf10, strtok}
use dsproj.Posix.{Posix}
use dsproj.Client.{
  Answer, within, my_path, received_over, number, transact, with_reply, with_reply_into,
}

-- `strcpy` into FUSE's buffer, which has the size that is asked for: the text and its NUL must fit.
unfoldable pub copied : ℤ → Bytes → Option Bytes
copied (pos size) text = within size text
copied (negsuc _) text = none

unfoldable pub copy_text : ℤ → Bytes → Option (Option Bytes)
unfolding copied
copy_text size s = elim (strtok comma s) [
  | none ↦ some none
  | some (ptr, _) ↦ copied size ptr >>= λ text. some (some text)
]

-- The result of read and the text that is copied to FUSE's buffer, if there is a third token.
unfoldable pub read_read : ℤ → Bytes → Option (ℤ × Option Bytes)
unfolding copy_text
read_read size buf = do
  (res, s) ← number buf
  (errno, s1) ← number s
  if eq_ℤ res minus_one then some (neg errno, none) else (copy_text size s1 >>= λ t. some (res, t))

unfoldable pub read_write : Bytes → Option ℤ
read_write buf = do
  (res, s) ← number buf
  (errno, _) ← number s
  some (if eq_ℤ res minus_one then neg errno else res)

abbrev pub read_request : Bytes → ℤ → ℤ → Bytes
read_request path size offset =
    my_path path ++ (comma ∷ (snprintf10 size ++ (comma ∷ snprintf10 offset)))

-- The text of the data follows as it is.
abbrev pub write_request : Bytes → Bytes → ℤ → ℤ → Bytes
write_request path buf size offset =
    my_path path ++ (comma ∷ (snprintf10 size ++ (comma ∷ (snprintf10 offset ++ (comma ∷ buf)))))

module _ {S : Type 0} (os : Posix S) (namenode : Bytes) (answer : Answer) where
  -- Up to 10000 bytes are received into the 4096 of read_retbuf; more than those run past it.
  unfoldable pub xmp_read : Bytes → ℤ → ℤ → Bytes → S → Option (ℤ × Option Bytes)
  unfolding read_read
  xmp_read path size offset old s = do
    text ← within 100 (read_request path size offset)
    r ← transact os namenode answer (codes "read") text s
    with_reply_into
        (λ msg.
          defined_if (leb (length msg) 4096) >> (received_over 4096 old msg >>= read_read size))
        r

  unfoldable pub xmp_write : Bytes → Bytes → ℤ → ℤ → Bytes → S → Option ℤ
  unfolding read_write
  xmp_write path buf size offset old s = do
    text ← within 10000 (write_request path buf size offset)
    r ← transact os namenode answer (codes "write") text s
    with_reply (λ msg. received_over 100 old msg >>= read_write) r
