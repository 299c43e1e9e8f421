-- ===== src/RoundTrip/Open.antt =====
-- Opening a file on a datanode: sendresponse_open and xmp_open.
use dsproj.Common.{
  ℕ, ◌<◌, ◌≤◌, ◌≡◌, refl, ◌∙◌, ap, arith, ℤ, true, some, subst, Bool-cases, inl, inr, length,
  if◌then◌else◌, ◌>>=◌, eq_ℤ, minus_one,
}
use dsproj.Text.{Bytes, codes}
use dsproj.Text.Number.{IsShort, snprintf10-minus_one}
use dsproj.Posix.{Posix, Call, sent, Datagram, found, hostname_to_ip, response_port}
use dsproj.Reply.{result_text}
use dsproj.Reply.Files.{open_text, sendresponse_open}
use dsproj.Client.{received_over, status_of}
use dsproj.Client.Status.{xmp_open, open_request}
use dsproj.RoundTrip.Buffer.{fuse_status, IsShortCall}
use dsproj.RoundTrip.Status.{IsClear, text-status_over}
use dsproj.RoundTrip.Exchange.{replies, operation-replies, payload_of_sent}

-- What the reply to an open reports: a failure as it is, else the descriptor and the errno behind
-- the close.
abbrev open_call : {R : Type 0} (dn : Posix R) → Bytes → ℤ → R → Call
open_call dn path flags r =
    let (c, r') = dn.open_file path flags r in
    if eq_ℤ c.res minus_one then c else record { res = c.res; errno = (dn.close c.res r').0.errno }

eq_ℤ-eq : (v : ℤ) → eq_ℤ v minus_one ≡ true → v ≡ minus_one
eq_ℤ-eq v h = ground arith

module _ {R : Type 0} (dn : Posix R) (path : Bytes) (flags : ℤ) (r : R) where
  open_text-call : (open_text dn path flags r).0 ≡ result_text (open_call dn path flags r)
  unfolding open_text
  open_text-call = elim (Bool-cases (eq_ℤ (dn.open_file path flags r).0.res minus_one)) [
    | inl e ↦ rw (e, eq_ℤ-eq (dn.open_file path flags r).0.res e, snprintf10-minus_one)
    | inr e ↦ rw e
  ]

  open_call-IsShort :
      IsShortCall (dn.open_file path flags r).0
      → IsShort (dn.close (dn.open_file path flags r).0.res (dn.open_file path flags r).1).0.errno
      → IsShortCall (open_call dn path flags r)
  open_call-IsShort h k = elim (Bool-cases (eq_ℤ (dn.open_file path flags r).0.res minus_one)) [
    | inl e ↦ rw e h
    | inr e ↦ rw e (h.0, k)
  ]

  open_call-status :
      fuse_status (open_call dn path flags r) ≡ fuse_status (dn.open_file path flags r).0
  open_call-status = elim (Bool-cases (eq_ℤ (dn.open_file path flags r).0.res minus_one)) [
    | inl e ↦ rw (e, e)
    | inr e ↦ rw (e, e)
  ]

module _ {S R : Type 0} (os : Posix S) (dn : Posix R) (namenode path host dpath : Bytes) (first : ℕ)
    (s : S) (r : R) {ip : Bytes} (resolved : hostname_to_ip os namenode ≡ found ip)
    (in_time : first ≤ 100) (d : Datagram) {r' : R} where
  -- Opening a file tells the client whether open on the datanode failed, and with which errno: 0,
  -- or -errno. The namenode has an address, the request fits its buffer and the reply is there
  -- within the wait; the descriptor and the errnos of the open and of the close behind it have at
  -- most nine characters; the old string in the reply buffer does not reach past the reply.
  xmp_open-sendresponse_open :
      (flags : ℤ) (old : Bytes)
      → length (open_request path flags) < 100
      → sendresponse_open dn host dpath flags r ≡ some (sent d, r')
      → IsShortCall (dn.open_file dpath flags r).0
      → IsShort (dn.close (dn.open_file dpath flags r).0.res (dn.open_file dpath flags r).1).0.errno
      → IsClear (length d.payload) old
      → xmp_open os namenode (replies first d.payload) path flags old s
        ≡ some (fuse_status (dn.open_file dpath flags r).0)
  unfolding xmp_open sendresponse_open
  xmp_open-sendresponse_open flags old fits replied short close_short clear =
      let e = payload_of_sent dn host response_port _ r d refl replied in
      operation-replies os namenode first s resolved in_time 100 d.payload (codes "open")
        (open_request path flags) (λ msg. received_over 100 old msg >>= status_of) fits
        (omega arith)
      ∙ rw (e, open_text-call dn dpath flags r)
          (text-status_over (open_call dn dpath flags r) old
              (open_call-IsShort dn dpath flags r short close_short)
              (subst (λ t. IsClear (length t) old) (e ∙ open_text-call dn dpath flags r) clear)
            ∙ ap some (open_call-status dn dpath flags r))
