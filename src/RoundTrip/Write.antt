-- ===== src/RoundTrip/Write.antt =====
-- write: the count that reaches the client (sendresponse_write and xmp_write).
use dsproj.Common.{
  subst, ℕ, ◌<◌, ◌≤◌, ◌≡◌, ◌≢◌, refl, ◌∙◌, ap, arith, ℤ, false, Option, some, [], append-nil,
  length, if◌then◌else◌, ◌>>=◌, eq_ℤ, minus_one, neg, pos, Bool-cases, inl, inr,
}
use dsproj.Text.{Bytes, codes, snprintf10}
use dsproj.Text.Number.{snprintf10-minus_one}
use dsproj.Posix.{Posix, Call, sent, Datagram, found, hostname_to_ip, response_port}
use dsproj.Reply.{result_text}
use dsproj.Reply.Files.{sendresponse_write, write_file}
use dsproj.Client.{received_over}
use dsproj.Client.Files.{read_write, xmp_write, write_request}
use dsproj.RoundTrip.Buffer.{number-field, number-last, received_over-text, IsShortCall}
use dsproj.RoundTrip.Exchange.{replies, operation-replies, payload_of_sent}
use dsproj.RoundTrip.Status.{IsClear, text-Lacks, length-text}

pub neq_ℤ : (v : ℤ) → v ≢ minus_one → eq_ℤ v minus_one ≡ false
neq_ℤ v h = ground arith

-- The call that a write reports: the failed open, or pwrite with a failure as -errno.
abbrev pub write_call : {R : Type 0} (dn : Posix R) → Bytes → ℤ → ℤ → Option Bytes → R → Call
write_call dn path size offset buf r =
    let (c, r') = dn.open_file path (pos 1) r in
    let (w, r'') = dn.pwrite c.res buf size offset r' in
    if eq_ℤ c.res minus_one
    then record { res = minus_one; errno = c.errno }
    else record { res = if eq_ℤ w.res minus_one then neg w.errno else w.res; errno = w.errno }

-- What write returns: -errno if the open or the write failed, else the number of bytes written.
abbrev pub write_result : Call → Call → ℤ
write_result opened written =
    if eq_ℤ opened.res minus_one
    then neg opened.errno
    else if eq_ℤ written.res minus_one
    then neg written.errno
    else written.res

module _ {R : Type 0} (dn : Posix R) (path : Bytes) (size offset : ℤ) (buf : Option Bytes)
    (r : R) where
  pub write_file-call :
      (write_file dn path size offset buf r).0 ≡ result_text (write_call dn path size offset buf r)
  unfolding write_file
  write_file-call = elim (Bool-cases (eq_ℤ (dn.open_file path (pos 1) r).0.res minus_one)) [
    | inl e ↦ rw (e, snprintf10-minus_one)
    | inr e ↦ rw e
  ]

read_write-text :
    (c : Call)
    → IsShortCall c
    → read_write (result_text c) ≡ some (if eq_ℤ c.res minus_one then neg c.errno else c.res)
unfolding read_write
read_write-text c (hr, he) =
    rw (number-field c.res (snprintf10 c.errno) hr) (rw (number-last c.errno he))

write_call-result :
    {R : Type 0} (dn : Posix R) (path : Bytes) (size offset : ℤ) (buf : Option Bytes) (r : R)
    → let c = write_call dn path size offset buf r in
      let (opened, r') = dn.open_file path (pos 1) r in
      (if eq_ℤ c.res minus_one then neg c.errno else c.res)
      ≡ write_result opened (dn.pwrite opened.res buf size offset r').0
write_call-result dn path size offset buf r =
    elim (Bool-cases (eq_ℤ (dn.open_file path (pos 1) r).0.res minus_one)) [
      | inl e ↦ rw e
      | inr e ↦
          rw e
            (elim (Bool-cases (
              eq_ℤ
                (dn.pwrite (dn.open_file path (pos 1) r).0.res buf size offset
                  (dn.open_file path (pos 1) r).1).0.res
                minus_one)) [
                  | inl w ↦
                      rw w
                        (elim (Bool-cases (
                          eq_ℤ
                            (neg
                              (dn.pwrite (dn.open_file path (pos 1) r).0.res buf size offset
                                (dn.open_file path (pos 1) r).1).0.errno)
                            minus_one)) [ inl n ↦ rw n | inr n ↦ rw n ])
                  | inr w ↦ rw (w, w)
                ])
    ]

module _ {S R : Type 0} (os : Posix S) (dn : Posix R) (namenode path host dpath : Bytes) (first : ℕ)
    (s : S) (r : R) {ip : Bytes} (resolved : hostname_to_ip os namenode ≡ found ip)
    (in_time : first ≤ 100) (d : Datagram) {r' : R} where
  -- Writing gives the client -errno if the open or the pwrite on the datanode failed, else the number
  -- of bytes written there. The old string in the reply buffer must not reach past the reply.
  pub xmp_write-sendresponse_write :
      (buf : Bytes) (size offset dsize doffset : ℤ) (dbuf : Option Bytes) (old : Bytes)
      → length (write_request path buf size offset) < 990
      → sendresponse_write dn host dpath dsize doffset dbuf r ≡ some (sent d, r')
      → IsShortCall (write_call dn dpath dsize doffset dbuf r)
      → IsClear (length d.payload) old
      → xmp_write os namenode (replies first d.payload) path buf size offset old s
        ≡ some (
            let (opened, r1) = dn.open_file dpath (pos 1) r in
            write_result opened (dn.pwrite opened.res dbuf dsize doffset r1).0)
  unfolding xmp_write sendresponse_write
  xmp_write-sendresponse_write buf size offset dsize doffset dbuf old fits replied short clear =
      let c = write_call dn dpath dsize doffset dbuf r in
      let e =
        payload_of_sent dn host response_port _ r d refl replied
        ∙ write_file-call dn dpath dsize doffset dbuf r in
      let clear' : IsClear (length (result_text c)) old =
        subst (λ t. IsClear (length t) old) e clear in
      operation-replies os namenode first s resolved in_time 10000 d.payload (codes "write")
        (write_request path buf size offset) (λ msg. received_over 100 old msg >>= read_write)
        (omega arith) (omega arith)
      ∙ rw
          (
            e,
            received_over-text 100 old (result_text c) [] (text-Lacks c) clear'.ended
                (omega (arith, length-text c)) clear'.in_size (omega (arith, length-text c)),
            append-nil,
          )
          (read_write-text c short)
      ∙ ap some (write_call-result dn dpath dsize doffset dbuf r)
