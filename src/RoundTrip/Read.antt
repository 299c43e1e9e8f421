-- ===== src/RoundTrip/Read.antt =====
-- read: the data that reach the client (sendresponse_read and xmp_read).
use dsproj.Common.{
  le→leb, subst, ℕ, zero, suc, ◌+◌, ◌<◌, ◌≤◌, ◌≡◌, ◌≢◌, ◌∙◌, ap, arith, ℤ, some, [], ◌∷◌, ◌++◌,
  append-nil, length, length-append, All-append, drop, ◌>>=◌, ◌>>◌, defined_if, minus_one, pos, leb,
  lt→ltb,
}
use dsproj.Text.{Bytes, comma, codes, snprintf10, Lacks, c_str, strtok}
use dsproj.Text.Number.{IsField, snprintf10-IsField, length-snprintf10}
use dsproj.Posix.{Posix, Call, sent, Datagram, found, hostname_to_ip, response_port}
use dsproj.Reply.Files.{sendresponse_read, read_file}
use dsproj.Client.{received_over}
use dsproj.Client.Files.{copied, copy_text, read_read, xmp_read, read_request}
use dsproj.RoundTrip.Buffer.{
  number-field, received_over-text, IsShortCall, strtok-IsField, within-fits,
}
use dsproj.RoundTrip.Exchange.{replies, operation_into-replies, payload_of_sent}
use dsproj.Text.Token.{strtok-last}
use dsproj.RoundTrip.Write.{neq_ℤ}

-- The reply to a read, and the end of the operation on it.
unfoldable pub read_reply : Call → Bytes → Bytes
read_reply c content = snprintf10 c.res ++ (comma ∷ (snprintf10 c.errno ++ (comma ∷ content)))

pub read_reply-Lacks :
    (c : Call) (content : Bytes) → Lacks 0 content → Lacks 0 (read_reply c content)
unfolding read_reply
read_reply-Lacks c content h =
    All-append (λ b. b ≢ 0) (snprintf10 c.res) _ (snprintf10-IsField c.res).no_nul
      (
        omega arith,
        All-append (λ b. b ≢ 0) (snprintf10 c.errno) _ (snprintf10-IsField c.errno).no_nul
            (omega arith, h),
      )

-- A buffer of that size has room for so many bytes.
abbrev pub HasSize : ℤ → ℕ → Type 0
HasSize size n = (room : ℕ) × (size ≡ pos room) × (n ≤ room)

copied-fits :
    (size : ℤ) (text : Bytes) → HasSize size (suc (length text)) → copied size text ≡ some text
unfolding copied
copied-fits size text (room, same, fits) = rw same (within-fits room text (omega arith))

copy_text-fits :
    (size : ℤ) (content tok rest : Bytes)
    → HasSize size (suc (length tok))
    → strtok comma content ≡ some (tok, rest)
    → copy_text size content ≡ some (some tok)
unfolding copy_text
copy_text-fits size content tok rest room cut = rw (copy_text, cut) (rw (copied-fits size tok room))

read_read-reply :
    (c : Call) (size : ℤ) (content tok rest : Bytes)
    → HasSize size (suc (length tok))
    → IsShortCall c
    → c.res ≢ minus_one
    → strtok comma content ≡ some (tok, rest)
    → read_read size (read_reply c content) ≡ some (c.res, some tok)
unfolding read_read read_reply
read_read-reply c size content tok rest room (hr, he) ok cut =
    rw (number-field c.res (snprintf10 c.errno ++ (comma ∷ content)) hr) (
      rw (
        number-field c.errno content he,
        neq_ℤ c.res ok,
        copy_text-fits size content tok rest room cut,
      ))

pub length-read_reply :
    (c : Call) (content : Bytes) → length (read_reply c content) ≤ 20 + length content
unfolding read_reply
length-read_reply c content =
    rw (length-append, length-append)
      (omega (arith, length-snprintf10 c.res, length-snprintf10 c.errno))

-- A text from a C string has no NUL.
c_str-Lacks_nul : (s : Bytes) → Lacks 0 (c_str s)
c_str-Lacks_nul [] = tt
c_str-Lacks_nul (zero ∷ s) = tt
c_str-Lacks_nul (suc c ∷ s) = (omega arith, c_str-Lacks_nul s)

length-c_str : (s : Bytes) → length (c_str s) ≤ length s
length-c_str [] = omega arith
length-c_str (zero ∷ s) = omega arith
length-c_str (suc c ∷ s) = omega (arith, length-c_str s)

-- The call that a successful open and read report: pread's count and the errno behind the close.
abbrev pub read_call : {R : Type 0} (dn : Posix R) → Bytes → ℤ → ℤ → R → Call
read_call dn path size offset r =
    let (c, r1) = dn.open_file path (pos 0) r in
    let (d, bytes, r2) = dn.pread c.res size offset r1 in
    record { res = d.res; errno = (dn.close c.res r2).0.errno }

-- The C string that pread put into the buffer.
abbrev pub read_bytes : {R : Type 0} (dn : Posix R) → Bytes → ℤ → ℤ → R → Bytes
read_bytes dn path size offset r =
    let (c, r1) = dn.open_file path (pos 0) r in (dn.pread c.res size offset r1).1

module _ {R : Type 0} (dn : Posix R) (path : Bytes) (size offset : ℤ) (r : R) where
  pub read_file-text :
      (dn.open_file path (pos 0) r).0.res ≢ minus_one
      → length (read_bytes dn path size offset r) < 4096
      → (r' : R) × (read_file dn path size offset r
          ≡ some (
            read_reply (read_call dn path size offset r) (c_str (read_bytes dn path size offset r)),
            r',
          ))
  unfolding read_file read_reply
  read_file-text opens fits =
      let (c, r1) = dn.open_file path (pos 0) r in
      let (d, bytes, r2) = dn.pread c.res size offset r1 in
      (
        (dn.close c.res r2).1,
        rw (
          neq_ℤ (dn.open_file path (pos 0) r).0.res opens,
          le→leb (length (read_bytes dn path size offset r)) 4096 (omega arith),
          lt→ltb (length (c_str (read_bytes dn path size offset r))) 4096
              (omega (arith, length-c_str (read_bytes dn path size offset r))),
        ),
      )

module _ {S R : Type 0} (os : Posix S) (dn : Posix R) (namenode path host dpath : Bytes) (first : ℕ)
    (s : S) (r : R) {ip : Bytes} (resolved : hostname_to_ip os namenode ≡ found ip)
    (in_time : first ≤ 100) (d : Datagram) {r' : R} (size offset dsize doffset : ℤ)
    (old : Bytes) where
  read_token :
      (tok rest : Bytes)
      → HasSize size (suc (length tok))
      → length (read_request path size offset) < 100
      → sendresponse_read dn host dpath dsize doffset r ≡ some (sent d, r')
      → (dn.open_file dpath (pos 0) r).0.res ≢ minus_one
      → (read_call dn dpath dsize doffset r).res ≢ minus_one
      → length (read_bytes dn dpath dsize doffset r) < 4076
      → IsShortCall (read_call dn dpath dsize doffset r)
      → c_str (drop (length d.payload) old) ≡ []
      → length old ≤ 4096
      → strtok comma (c_str (read_bytes dn dpath dsize doffset r)) ≡ some (tok, rest)
      → xmp_read os namenode (replies first d.payload) path size offset old s
        ≡ some ((read_call dn dpath dsize doffset r).res, some tok)
  unfolding xmp_read sendresponse_read
  read_token tok rest room fits replied opens reads few short clear in_size cut =
      let c = read_call dn dpath dsize doffset r in
      let content = c_str (read_bytes dn dpath dsize doffset r) in
      let bound : length (read_reply c content) < 4096 =
        omega (
          arith,
          length-read_reply c content,
          length-c_str (read_bytes dn dpath dsize doffset r),
        ) in
      let e : d.payload ≡ read_reply c content =
        payload_of_sent dn host response_port (read_file dn dpath dsize doffset) r d
          ((read_file-text dn dpath dsize doffset r opens (omega arith)).1) replied in
      operation_into-replies os namenode first s resolved in_time 100 d.payload (codes "read")
        (read_request path size offset)
        (λ msg.
          defined_if (leb (length msg) 4096) >> (received_over 4096 old msg >>= read_read size))
        fits (omega arith)
      ∙ rw
          (
            e,
            le→leb (length (read_reply c content)) 4096 (omega arith),
            received_over-text 4096 old (read_reply c content) []
                (read_reply-Lacks c content (c_str-Lacks_nul (read_bytes dn dpath dsize doffset r)))
                (subst (λ t. c_str (drop (length t) old) ≡ []) e clear) bound in_size (omega arith),
            append-nil,
          )
          (read_read-reply c size content tok rest room short reads cut)

  -- If the open and the pread on the datanode succeed and the bytes that were read, up to a NUL,
  -- are not empty and hold no comma, read gives the client exactly these bytes and pread's count.
  -- The namenode has an address, the request fits its buffer and the reply is there within the
  -- wait; the two numbers of the reply have at most nine characters; fewer than 4076 bytes were
  -- read, and the old string in the reply buffer does not reach past the reply; and FUSE's buffer has
  -- room for the bytes and a NUL.
  pub xmp_read-sendresponse_read :
      length (read_request path size offset) < 100
      → sendresponse_read dn host dpath dsize doffset r ≡ some (sent d, r')
      → (dn.open_file dpath (pos 0) r).0.res ≢ minus_one
      → (read_call dn dpath dsize doffset r).res ≢ minus_one
      → length (read_bytes dn dpath dsize doffset r) < 4076
      → IsShortCall (read_call dn dpath dsize doffset r)
      → c_str (drop (length d.payload) old) ≡ []
      → length old ≤ 4096
      → IsField (c_str (read_bytes dn dpath dsize doffset r))
      → HasSize size (suc (length (c_str (read_bytes dn dpath dsize doffset r))))
      → xmp_read os namenode (replies first d.payload) path size offset old s
        ≡ some (
          (read_call dn dpath dsize doffset r).res,
          some (c_str (read_bytes dn dpath dsize doffset r)),
        )
  xmp_read-sendresponse_read fits replied opens reads few short clear in_size field room =
      read_token (c_str (read_bytes dn dpath dsize doffset r)) [] room fits replied opens reads few
        short clear in_size
        (strtok-last comma (c_str (read_bytes dn dpath dsize doffset r)) field.not_empty
          field.no_comma)

  -- If the open and the pread on the datanode succeed and the bytes that were read have a comma
  -- behind a first part that is not empty, read gives the client that part alone, and still pread's
  -- count. The namenode has an address, the request fits its buffer and the reply is there within
  -- the wait; the two numbers of the reply have at most nine characters; fewer than 4076 bytes were
  -- read, not more than the client asks for, and the old string in the reply buffer does not reach
  -- past the reply.
  pub xmp_read_partial :
      (part rest : Bytes)
      → length (read_request path size offset) < 100
      → sendresponse_read dn host dpath dsize doffset r ≡ some (sent d, r')
      → (dn.open_file dpath (pos 0) r).0.res ≢ minus_one
      → (read_call dn dpath dsize doffset r).res ≢ minus_one
      → length (read_bytes dn dpath dsize doffset r) < 4076
      → IsShortCall (read_call dn dpath dsize doffset r)
      → c_str (drop (length d.payload) old) ≡ []
      → length old ≤ 4096
      → c_str (read_bytes dn dpath dsize doffset r) ≡ part ++ (comma ∷ rest)
      → IsField part
      → HasSize size (length (read_bytes dn dpath dsize doffset r))
      → xmp_read os namenode (replies first d.payload) path size offset old s
        ≡ some ((read_call dn dpath dsize doffset r).res, some part)
  xmp_read_partial part rest fits replied opens reads few short clear in_size content field
        (room, same, few_asked) =
      read_token part rest
        (
          room,
          same,
          omega (
            arith,
            few_asked,
            length-c_str (read_bytes dn dpath dsize doffset r),
            ap length content,
            length-append part (comma ∷ rest),
          ),
        )
        fits replied opens reads few short clear in_size
        (rw content (strtok-IsField part rest field))
