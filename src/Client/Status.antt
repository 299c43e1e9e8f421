-- ===== src/Client/Status.antt =====
-- The operations of client.c whose reply is "res,errno": access, mknod, unlink, rmdir, truncate and
-- open. The buffers of access, mknod and open are not cleared before a reply; `old` is what they hold.
use dsproj.Common.{ℤ, Option, [], ◌∷◌, ◌++◌, ◌>>=◌}
use dsproj.Text.{Bytes, codes, comma, snprintf10}
use dsproj.Posix.{Posix}
use dsproj.Client.{
  Answer, within, my_path, received, received_over, status_of, transact, with_reply,
}

-- The texts behind the commands: the path, and the numbers that go with it.
abbrev pub access_request : Bytes → ℤ → Bytes
access_request path mask = my_path path ++ (comma ∷ snprintf10 mask)

abbrev pub mknod_request : Bytes → ℤ → ℤ → Bytes
mknod_request path mode rdev =
    my_path path ++ (comma ∷ (snprintf10 mode ++ (comma ∷ (snprintf10 rdev ++ (comma ∷ [])))))

-- The text of the size follows the path with no comma between them.
abbrev pub truncate_request : Bytes → ℤ → Bytes
truncate_request path size = my_path path ++ (snprintf10 size ++ (comma ∷ []))

abbrev pub open_request : Bytes → ℤ → Bytes
open_request path flags = my_path path ++ (comma ∷ snprintf10 flags)

module _ {S : Type 0} (os : Posix S) (namenode : Bytes) (answer : Answer) where
  unfoldable pub xmp_access : Bytes → ℤ → Bytes → S → Option ℤ
  xmp_access path mask old s = do
    text ← within 100 (access_request path mask)
    r ← transact os namenode answer (codes "access") text s
    with_reply (λ msg. received_over 100 old msg >>= status_of) r

  unfoldable pub xmp_mknod : Bytes → ℤ → ℤ → Bytes → S → Option ℤ
  xmp_mknod path mode rdev old s = do
    text ← within 100 (mknod_request path mode rdev)
    r ← transact os namenode answer (codes "mknod") text s
    with_reply (λ msg. received_over 100 old msg >>= status_of) r

  unfoldable pub xmp_unlink : Bytes → S → Option ℤ
  xmp_unlink path s = do
    text ← within 100 (my_path path)
    r ← transact os namenode answer (codes "unlink") text s
    with_reply (λ msg. received 100 msg >>= status_of) r

  unfoldable pub xmp_rmdir : Bytes → S → Option ℤ
  xmp_rmdir path s = do
    text ← within 100 (my_path path)
    r ← transact os namenode answer (codes "rmdir") text s
    with_reply (λ msg. received 100 msg >>= status_of) r

  unfoldable pub xmp_truncate : Bytes → ℤ → S → Option ℤ
  xmp_truncate path size s = do
    text ← within 100 (truncate_request path size)
    r ← transact os namenode answer (codes "truncate") text s
    with_reply (λ msg. received 100 msg >>= status_of) r

  unfoldable pub xmp_open : Bytes → ℤ → Bytes → S → Option ℤ
  xmp_open path flags old s = do
    text ← within 100 (open_request path flags)
    r ← transact os namenode answer (codes "open") text s
    with_reply (λ msg. received_over 100 old msg >>= status_of) r
