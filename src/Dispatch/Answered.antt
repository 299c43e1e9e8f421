-- ===== src/Dispatch/Answered.antt =====
-- The call on a datanode for each request of client.c, and the reply of socket_command.c to it.
use dsproj.Common.{
  ℤ, pos, neg, ap, Bool-cases, inl, inr, eq_ℤ, minus_one, if◌then◌else◌, true, Option, ◌>>=◌, some,
  ◌≡◌, refl,
}
use dsproj.Text.{Bytes}
use dsproj.Client.{my_path}
use dsproj.Posix.{Posix, Sent, send_to, response_port}
use dsproj.Reply.{
  within, result_text, result_line, failure_text, flag_text, getattr_text, readdir_text,
  sendresponse_getattr, sendresponse_readdir, sendresponse_unlink, sendresponse_rmdir,
  sendresponse_access, sendresponse_mkdir, sendresponse_chmod, sendresponse_rename,
}
use dsproj.Reply.Files.{
  is_negative, read_text, make_file, sendresponse_mknod, sendresponse_open, open_text,
  sendresponse_read, read_file, sendresponse_write, write_file,
}
use dsproj.Registry.{Lists}
use dsproj.Dispatch.{serve}
use dsproj.Dispatch.Request.{Request, meant}

-- What answers a request of a client on a datanode, by the request itself: the call on the path under
-- the folder, with the request's own numbers and data.
unfoldable pub answered : {S : Type 0} → Posix S → Bytes → Request → S → Option (Sent × S)
answered os host (Request.ask_getattr path) =
    send_to os host response_port
      λ s. let (c, st, s') = os.stat (my_path path) s in some (getattr_text c st, s')
answered os host (Request.ask_readdir path) = send_to os host response_port λ s.
    let (des, errno, s') = os.opendir (my_path path) s in
    within 10000 (readdir_text des errno) >>= λ text. some (text, s')
answered os host (Request.ask_unlink path) =
    send_to os host response_port
      λ s. let (c, s') = os.unlink (my_path path) s in some (result_line c, s')
answered os host (Request.ask_rmdir path) =
    send_to os host response_port
      λ s. let (c, s') = os.rmdir (my_path path) s in some (result_line c, s')
answered os host (Request.ask_access path mask) =
    send_to os host response_port
      λ s. let (c, s') = os.access (my_path path) mask s in some (result_text c, s')
answered os host (Request.ask_open path flags) = send_to os host response_port λ s.
    let (c, s1) = os.open_file (my_path path) flags s in
    let (d, s2) = os.close c.res s1 in
    some (
      if eq_ℤ c.res minus_one
      then (failure_text c.errno, s1)
      else (result_text (record { res = c.res; errno = d.errno }), s2))
answered os host (Request.ask_mkdir path mode) =
    send_to os host response_port
      λ s. let (c, s') = os.mkdir (my_path path) mode s in some (flag_text c, s')
answered os host (Request.ask_chmod path mode) =
    send_to os host response_port
      λ s. let (c, s') = os.chmod (my_path path) mode s in some (flag_text c, s')
answered os host (Request.ask_read path size offset) = send_to os host response_port λ s.
    let (c, s1) = os.open_file (my_path path) (pos 0) s in
    let (d, bytes, s2) = os.pread c.res size offset s1 in
    let (e, s3) = os.close c.res s2 in
    if eq_ℤ c.res minus_one
    then some (failure_text c.errno, s1)
    else read_text (record { res = d.res; errno = e.errno }) bytes >>= λ text. some (text, s3)
answered os host (Request.ask_mknod path mode rdev) = send_to os host response_port λ s.
    let (c, s1) = os.open_create (my_path path) mode s in
    let (d, s2) = os.close c.res s1 in
    if is_negative c.res then some (result_line c, s1) else some (result_line d, s2)
answered os host (Request.ask_write path buf size offset) = send_to os host response_port λ s.
    let (c, s1) = os.open_file (my_path path) (pos 1) s in
    let (d, s2) = os.pwrite c.res (some buf) size offset s1 in
    let res = if eq_ℤ d.res minus_one then neg d.errno else d.res in
    let (e, s3) = os.close c.res s2 in
    some (
      if eq_ℤ c.res minus_one
      then (failure_text c.errno, s1)
      else (result_text (record { res = res; errno = d.errno }), s3))
answered os host (Request.ask_rename path to) =
    send_to os host response_port
      λ s. let (c, s') = os.rename (my_path path) (some (my_path to)) s in some (flag_text c, s')

-- The reply of sendresponse_mknod, by its two calls.
abbrev made : {S : Type 0} → Posix S → Bytes → ℤ → S → Option (Bytes × S)
made os path mode s =
    let (c, s1) = os.open_create path mode s in
    let (d, s2) = os.close c.res s1 in
    if is_negative c.res then some (result_line c, s1) else some (result_line d, s2)

make_file-calls :
    {S : Type 0} (os : Posix S) (path : Bytes) (mode : ℤ) (s : S)
    → ◌≡◌ {A = Option (Bytes × S)}
        (some (result_line (make_file os path mode s).0, (make_file os path mode s).1))
        (made os path mode s)
unfolding make_file
make_file-calls os path mode s =
    elim (Bool-cases (is_negative (os.open_create path mode s).0.res)) [
      | inl e ↦ rw e refl
      | inr e ↦ rw e refl
    ]

pub serve-meant :
    {S : Type 0} (os : Posix S) (datanode_namenode host : Bytes) (q : Request) (lists : Lists)
    (s : S)
    → serve os datanode_namenode host (meant q) lists s ≡ (
        answered os host q s >>= λ t.
        some (record { running = true; reply = some t.0; lists = lists }, t.1))
unfolding serve answered sendresponse_getattr sendresponse_readdir sendresponse_unlink
    sendresponse_rmdir sendresponse_access sendresponse_open open_text sendresponse_mkdir
    sendresponse_chmod sendresponse_rename sendresponse_read read_file sendresponse_mknod
    sendresponse_write write_file
serve-meant os dnn host (Request.ask_getattr path) lists s = refl
serve-meant os dnn host (Request.ask_readdir path) lists s = refl
serve-meant os dnn host (Request.ask_unlink path) lists s = refl
serve-meant os dnn host (Request.ask_rmdir path) lists s = refl
serve-meant os dnn host (Request.ask_access path mask) lists s = refl
serve-meant os dnn host (Request.ask_open path flags) lists s = refl
serve-meant os dnn host (Request.ask_mkdir path mode) lists s = refl
serve-meant os dnn host (Request.ask_chmod path mode) lists s = refl
serve-meant os dnn host (Request.ask_read path size offset) lists s = refl
serve-meant {S} os dnn host (Request.ask_mknod path mode rdev) lists s =
    ap
      (λ (f : S → Option (Bytes × S)). send_to os host response_port f s >>= λ t.
        some (record { running = true; reply = some t.0; lists = lists }, t.1))
      (λ i s1. make_file-calls os (my_path path) mode s1 i)
serve-meant os dnn host (Request.ask_write path buf size offset) lists s = refl
serve-meant os dnn host (Request.ask_rename path to) lists s = refl
