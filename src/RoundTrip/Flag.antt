-- ===== src/RoundTrip/Flag.antt =====
-- mkdir, chmod and rename: the replies "Y,errno" and "N,errno".
use dsproj.Common.{
  subst, ℕ, ◌<◌, ◌≤◌, ◌≡◌, ◌≢◌, refl, ◌∙◌, arith, ℤ, Option, some, [], ◌∷◌, length, if◌then◌else◌,
  ◌>>=◌, eq_ℤ, minus_one, neg, pos, Bool-cases, inl, inr,
}
use dsproj.Text.{Bytes, comma, codes, snprintf10, Lacks, same}
use dsproj.Text.Number.{IsShort, snprintf10-IsField, length-snprintf10}
use dsproj.Posix.{Posix, Call, sent, Datagram, found, hostname_to_ip, response_port}
use dsproj.Reply.{flag_text, sendresponse_mkdir, sendresponse_chmod, sendresponse_rename}
use dsproj.Client.{my_path, received}
use dsproj.Client.Flag.{flag_status, xmp_mkdir, xmp_chmod, xmp_rename, mode_request, rename_request}
use dsproj.RoundTrip.Buffer.{number-last, received-text, fuse_status, within-fits}
use dsproj.RoundTrip.Exchange.{replies, operation-replies, payload_of_sent}
use dsproj.Text.Token.{strtok-field}
use mathlib.Core.List.{cons-ne-nil}

flag_text-Lacks : (c : Call) → Lacks 0 (flag_text c)
flag_text-Lacks c = elim (Bool-cases (eq_ℤ c.res minus_one)) [
  | inl e ↦ rw e (omega arith, (omega arith, (snprintf10-IsField c.errno).no_nul))
  | inr e ↦ rw e (omega arith, (omega arith, (snprintf10-IsField c.errno).no_nul))
]

length-flag : (c : Call) → length (flag_text c) ≤ 11
length-flag c = omega (arith, length-snprintf10 c.errno)

flag_status-text :
    (b : ℕ) (errno : ℤ)
    → b ≢ comma
    → IsShort errno
    → flag_status (b ∷ comma ∷ snprintf10 errno)
      ≡ some (if same (b ∷ []) (codes "Y") then neg errno else pos 0)
unfolding flag_status
flag_status-text b errno ne h =
    rw (
      strtok-field comma (b ∷ []) (snprintf10 errno) (cons-ne-nil _ _) (ne, tt),
      number-last errno h,
    )

-- A flag reply that fits the buffer is read as the result of the call.
flag-status :
    (size : ℕ) (c : Call)
    → IsShort c.errno
    → length (flag_text c) < size
    → (received size (flag_text c) >>= flag_status) ≡ some (fuse_status c)
flag-status size c h fits = elim (Bool-cases (eq_ℤ c.res minus_one)) [
  | inl e ↦
      rw (received-text size (flag_text c) (flag_text-Lacks c) fits, e)
        (flag_status-text b'Y' c.errno (omega arith) h)
  | inr e ↦
      rw (received-text size (flag_text c) (flag_text-Lacks c) fits, e)
        (flag_status-text b'N' c.errno (omega arith) h)
]

module _ {S R : Type 0} (os : Posix S) (dn : Posix R) (namenode path host dpath : Bytes) (first : ℕ)
    (s : S) (r : R) {ip : Bytes} (resolved : hostname_to_ip os namenode ≡ found ip)
    (in_time : first ≤ 100) (d : Datagram) {r' : R} where
  -- Making a folder gives the client the result of mkdir on the datanode: 0, or -errno. The
  -- namenode has an address, the request fits its buffer and the reply is there within the wait;
  -- errno has at most nine characters.
  xmp_mkdir-sendresponse_mkdir :
      (mode dmode : ℤ)
      → length (mode_request path mode) < 100
      → sendresponse_mkdir dn host dpath dmode r ≡ some (sent d, r')
      → IsShort (dn.mkdir dpath dmode r).0.errno
      → xmp_mkdir os namenode (replies first d.payload) path mode s
        ≡ some (fuse_status (dn.mkdir dpath dmode r).0)
  unfolding xmp_mkdir sendresponse_mkdir
  xmp_mkdir-sendresponse_mkdir mode dmode fits replied short =
      let e = payload_of_sent dn host response_port _ r d refl replied in
      operation-replies os namenode first s resolved in_time 100 d.payload (codes "mkdir")
        (mode_request path mode) (λ msg. received 10000 msg >>= flag_status) fits (omega arith)
      ∙ rw e (
          flag-status 10000 (dn.mkdir dpath dmode r).0 short
            (omega (arith, length-flag (dn.mkdir dpath dmode r).0)))

  -- Changing the mode gives the client the result of chmod on the datanode, 0 or -errno, if the
  -- reply is shorter than the ten bytes of its buffer. The namenode has an address, the request
  -- fits its buffer and the reply is there within the wait; errno has at most nine characters.
  xmp_chmod-sendresponse_chmod :
      (mode dmode : ℤ)
      → length (mode_request path mode) < 100
      → sendresponse_chmod dn host dpath dmode r ≡ some (sent d, r')
      → IsShort (dn.chmod dpath dmode r).0.errno
      → length d.payload < 10
      → xmp_chmod os namenode (replies first d.payload) path mode s
        ≡ some (fuse_status (dn.chmod dpath dmode r).0)
  unfolding xmp_chmod sendresponse_chmod
  xmp_chmod-sendresponse_chmod mode dmode fits replied short small =
      let e = payload_of_sent dn host response_port _ r d refl replied in
      operation-replies os namenode first s resolved in_time 100 d.payload (codes "chmod")
        (mode_request path mode) (λ msg. received 10 msg >>= flag_status) fits (omega arith)
      ∙ rw e (flag-status 10 (dn.chmod dpath dmode r).0 short (subst (λ t. length t < 10) e small))

  -- Renaming gives the client the result of rename on the datanode, 0 or -errno, if the reply is
  -- shorter than the ten bytes of its buffer. The namenode has an address, the request fits its
  -- buffer and the reply is there within the wait, as does the new path; errno has at most nine
  -- characters.
  xmp_rename-sendresponse_rename :
      (to : Bytes) (dto : Option Bytes)
      → length (rename_request path to) < 100
      → length (my_path to) < 100
      → sendresponse_rename dn host dpath dto r ≡ some (sent d, r')
      → IsShort (dn.rename dpath dto r).0.errno
      → length d.payload < 10
      → xmp_rename os namenode (replies first d.payload) path to s
        ≡ some (fuse_status (dn.rename dpath dto r).0)
  unfolding xmp_rename sendresponse_rename
  xmp_rename-sendresponse_rename to dto fits to_fits replied short small =
      let e = payload_of_sent dn host response_port _ r d refl replied in
      rw (within-fits 100 (my_path to) to_fits) (
        operation-replies os namenode first s resolved in_time 100 d.payload (codes "rename")
          (rename_request path to) (λ msg. received 10 msg >>= flag_status) fits (omega arith)
        ∙ rw e
            (flag-status 10 (dn.rename dpath dto r).0 short (subst (λ t. length t < 10) e small)))
