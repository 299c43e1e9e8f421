-- ===== src/RoundTrip/Stale.antt =====
-- What old bytes in a reply buffer that is not cleared do: access of client.c. (mknod, open, read and
-- write receive in the same way.)
use dsproj.Common.{
  ℕ, ◌+◌, ◌<◌, ◌≤◌, ◌≡◌, refl, ◌∙◌, ap, arith, ℤ, some, [], ◌∷◌, ◌++◌, append_assoc, ◌^◌, ◌*◌,
  subst, ◌≢◌, All-append, length, drop, ◌>>=◌, minus_one, neg, pos,
}
use dsproj.Text.{Bytes, comma, codes, snprintf10, c_str}
use dsproj.Text.Number.{snprintf10-IsField, atoi-digit_behind}
use dsproj.Text.Token.{strtok-last}
use mathlib.Core.List.{concat-ne-nil}
use dsproj.Posix.{Posix, Call, sent, Datagram, found, hostname_to_ip, response_port}
use dsproj.Reply.{result_text, sendresponse_access}
use dsproj.Client.{received_over, status_of, number}
use dsproj.Client.Status.{xmp_access, access_request}
use dsproj.RoundTrip.Buffer.{number-field, received_over-text}
use dsproj.RoundTrip.Status.{text-Lacks, length-text}
use dsproj.RoundTrip.Exchange.{replies, operation-replies, payload_of_sent}

number_behind :
    (e t : ℕ)
    → e < 10 ^ 9
    → t < 10
    → number (snprintf10 (pos e) ++ (b'0' + t) ∷ []) ≡ some (pos (e * 10 + t), [])
number_behind e t h k =
    let f = snprintf10-IsField (pos e) in
    rw (
      strtok-last comma (snprintf10 (pos e) ++ (b'0' + t) ∷ [])
          (concat-ne-nil _ (snprintf10 (pos e)))
          (All-append (λ b. b ≢ comma) (snprintf10 (pos e)) _ f.no_comma (omega arith, tt)),
      atoi-digit_behind e t h k,
    )

-- A failure whose reply is received over an old digit.
stale-status :
    (e t : ℕ) (old : Bytes)
    → e < 10 ^ 8
    → t < 10
    → c_str (drop (length (result_text (record { res = minus_one; errno = pos e }))) old)
      ≡ (b'0' + t) ∷ []
    → length old ≤ 100
    → (received_over 100 old (result_text (record { res = minus_one; errno = pos e }))
        >>= status_of)
      ≡ some (neg (pos (e * 10 + t)))
stale-status e t old small digit tail size =
    let c : Call = record { res = minus_one; errno = pos e } in
    rw
      (
        received_over-text 100 old (result_text c) ((b'0' + t) ∷ []) (text-Lacks c) tail
            (omega (arith, length-text c)) size (omega (arith, length-text c)),
        append_assoc (snprintf10 minus_one) (comma ∷ snprintf10 (pos e)) ((b'0' + t) ∷ []),
        number-field minus_one (snprintf10 (pos e) ++ (b'0' + t) ∷ []) (omega arith),
      )
      (rw (number_behind e t (omega arith) digit))

-- If access fails on the datanode with an errno e below 10 ^ 8, and the old contents of the reply
-- buffer have one more digit t behind the reply and end there, the client returns -(10 e + t)
-- instead of -e. The namenode has an address, the request fits its buffer and the reply is there
-- within the wait.
pub xmp_access_stale :
    {S R : Type 0} (os : Posix S) (dn : Posix R) (namenode path host dpath : Bytes) (first : ℕ)
    (s : S) (r : R) {ip : Bytes} (d : Datagram) {r' : R} (mask : ℤ) (old : Bytes) (e t : ℕ)
    → hostname_to_ip os namenode ≡ found ip
    → first ≤ 100
    → length (access_request path mask) < 100
    → sendresponse_access dn host dpath mask r ≡ some (sent d, r')
    → (dn.access dpath mask r).0 ≡ record { res = minus_one; errno = pos e }
    → e < 10 ^ 8
    → t < 10
    → c_str (drop (length d.payload) old) ≡ (b'0' + t) ∷ []
    → length old ≤ 100
    → xmp_access os namenode (replies first d.payload) path mask old s
      ≡ some (neg (pos (e * 10 + t)))
unfolding xmp_access sendresponse_access
xmp_access_stale os dn namenode path host dpath first s r d mask old e t resolved in_time fits
      replied fails small digit tail size =
    let sent_text =
      payload_of_sent dn host response_port _ r d refl replied ∙ ap result_text fails in
    operation-replies os namenode first s resolved in_time 100 d.payload (codes "access")
      (access_request path mask) (λ msg. received_over 100 old msg >>= status_of) fits (omega arith)
    ∙ rw sent_text (
        stale-status e t old small digit
          (subst (λ m. c_str (drop (length m) old) ≡ (b'0' + t) ∷ []) sent_text tail) size)
