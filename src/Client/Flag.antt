-- ===== src/Client/Flag.antt =====
-- The operations of client.c whose reply is "Y,errno" or "N,errno": mkdir, rename and chmod.
use dsproj.Common.{ℤ, pos, neg, if◌then◌else◌, Option, some, ◌∷◌, ◌++◌, take, ◌>>=◌}
use dsproj.Text.{Bytes, codes, comma, snprintf10, strtok, same}
use dsproj.Posix.{Posix}
use dsproj.Client.{Answer, within, my_path, received, number, transact, with_reply}

-- The flag is the first byte of the buffer, and "Y" gives -errno.
unfoldable pub flag_status : Bytes → Option ℤ
flag_status buf = do
  (tok, s) ← strtok comma buf
  (errno, _) ← number s
  some (if same (take 1 buf) (codes "Y") then neg errno else pos 0)

-- mkdir and chmod send the path and the mode, rename the two paths.
abbrev pub mode_request : Bytes → ℤ → Bytes
mode_request path mode = my_path path ++ (comma ∷ snprintf10 mode)

abbrev pub rename_request : Bytes → Bytes → Bytes
rename_request from to = my_path from ++ (comma ∷ my_path to)

module _ {S : Type 0} (os : Posix S) (namenode : Bytes) (answer : Answer) where
  -- The reply is received up to 10000 bytes: what runs past the ten of mkdir_buf stays in view.
  unfoldable pub xmp_mkdir : Bytes → ℤ → S → Option ℤ
  unfolding flag_status
  xmp_mkdir path mode s = do
    text ← within 100 (mode_request path mode)
    r ← transact os namenode answer (codes "mkdir") text s
    with_reply (λ msg. received 10000 msg >>= flag_status) r

  unfoldable pub xmp_rename : Bytes → Bytes → S → Option ℤ
  unfolding flag_status
  xmp_rename from to s = do
    my_tpath ← within 100 (my_path to)
    text ← within 100 (my_path from ++ (comma ∷ my_tpath))
    r ← transact os namenode answer (codes "rename") text s
    with_reply (λ msg. received 10 msg >>= flag_status) r

  unfoldable pub xmp_chmod : Bytes → ℤ → S → Option ℤ
  unfolding flag_status
  xmp_chmod path mode s = do
    text ← within 100 (mode_request path mode)
    r ← transact os namenode answer (codes "chmod") text s
    with_reply (λ msg. received 10 msg >>= flag_status) r
