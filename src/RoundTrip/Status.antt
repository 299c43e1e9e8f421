-- ===== src/RoundTrip/Status.antt =====
-- The replies "res,errno" and "res,errno,": unlink, rmdir, truncate, access, mknod and open.
use dsproj.Common.{
  ℕ, ◌<◌, ◌≤◌, ◌≡◌, refl, ◌∙◌, arith, ℤ, some, [], ◌∷◌, append-nil, subst, ◌≢◌, All-append, length,
  length-append, drop, ◌>>=◌,
}
use dsproj.Text.{Bytes, codes, snprintf10, c_str, csv, Lacks}
use dsproj.Text.Number.{snprintf10-IsField, length-snprintf10}
use dsproj.Posix.{Posix, Call, sent, Datagram, found, hostname_to_ip, response_port}
use dsproj.Reply.{
  result_line, result_text, sendresponse_unlink, sendresponse_rmdir, sendresponse_truncate,
  sendresponse_access,
}
use dsproj.Reply.Files.{make_file, sendresponse_mknod}
use dsproj.Client.{my_path, received, received_over, status_of}
use dsproj.Client.Status.{
  xmp_unlink, xmp_rmdir, xmp_truncate, xmp_mknod, xmp_access, access_request, mknod_request,
  truncate_request,
}
use dsproj.RoundTrip.Buffer.{
  number-field, number-last, received-text, received_over-text, length-csv2, csv-Lacks, fuse_status,
  IsShortCall,
}
use dsproj.RoundTrip.Exchange.{replies, operation-replies, payload_of_sent}

status_of-line : (c : Call) → IsShortCall c → status_of (result_line c) ≡ some (fuse_status c)
status_of-line c (hr, he) =
    rw (number-field c.res (csv (snprintf10 c.errno ∷ [])) hr) (rw (number-field c.errno [] he))

line-Lacks : (c : Call) → Lacks 0 (result_line c)
line-Lacks c =
    csv-Lacks (snprintf10 c.res ∷ snprintf10 c.errno ∷ [])
      ((snprintf10-IsField c.res).no_nul, ((snprintf10-IsField c.errno).no_nul, tt))

-- The client reads a result line as the result of the call, in a cleared buffer,
line-status :
    (c : Call) → IsShortCall c → (received 100 (result_line c) >>= status_of) ≡ some (fuse_status c)
line-status c h =
    rw (received-text 100 (result_line c) (line-Lacks c) (omega (arith, length-csv2 c.res c.errno)))
      (status_of-line c h)

-- A buffer of 100 bytes in which the string ends behind the first n bytes.
pub record IsClear (n : ℕ) (old : Bytes) : Type 0 where
  pub in_size : length old ≤ 100
  pub ended : c_str (drop n old) ≡ []

-- or over old bytes that end where the text does.
line-status_over :
    (c : Call) (old : Bytes)
    → IsShortCall c
    → IsClear (length (result_line c)) old
    → (received_over 100 old (result_line c) >>= status_of) ≡ some (fuse_status c)
line-status_over c old h clear =
    rw
      (
        received_over-text 100 old (result_line c) [] (line-Lacks c) clear.ended
            (omega (arith, length-csv2 c.res c.errno)) clear.in_size
            (omega (arith, length-csv2 c.res c.errno)),
        append-nil,
      )
      (status_of-line c h)

pub text-Lacks : (c : Call) → Lacks 0 (result_text c)
text-Lacks c =
    All-append (λ b. b ≢ 0) (snprintf10 c.res) _ (snprintf10-IsField c.res).no_nul
      (omega arith, (snprintf10-IsField c.errno).no_nul)

pub length-text : (c : Call) → length (result_text c) ≤ 19
length-text c = rw length-append (omega (arith, length-snprintf10 c.res, length-snprintf10 c.errno))

pub text-status_over :
    (c : Call) (old : Bytes)
    → IsShortCall c
    → IsClear (length (result_text c)) old
    → (received_over 100 old (result_text c) >>= status_of) ≡ some (fuse_status c)
text-status_over c old h clear =
    rw
      (
        received_over-text 100 old (result_text c) [] (text-Lacks c) clear.ended
            (omega (arith, length-text c)) clear.in_size (omega (arith, length-text c)),
        append-nil,
        number-field c.res (snprintf10 c.errno) h.0,
      )
      (rw (number-last c.errno h.1))

module _ {S R : Type 0} (os : Posix S) (dn : Posix R) (namenode path host dpath : Bytes) (first : ℕ)
    (s : S) (r : R) {ip : Bytes} (resolved : hostname_to_ip os namenode ≡ found ip)
    (in_time : first ≤ 100) (d : Datagram) {r' : R} where
  -- Removing a file gives the client the result of unlink on the datanode whose reply it receives:
  -- 0, or -errno. The namenode has an address, the request fits its buffer and the reply is there
  -- within the wait; the two numbers of the reply have at most nine characters.
  pub xmp_unlink-sendresponse_unlink :
      length (my_path path) < 100
      → sendresponse_unlink dn host dpath r ≡ some (sent d, r')
      → IsShortCall (dn.unlink dpath r).0
      → xmp_unlink os namenode (replies first d.payload) path s
        ≡ some (fuse_status (dn.unlink dpath r).0)
  unfolding xmp_unlink sendresponse_unlink
  xmp_unlink-sendresponse_unlink fits replied short =
      operation-replies os namenode first s resolved in_time 100 d.payload (codes "unlink")
        (my_path path) _ fits (omega arith)
      ∙ rw (payload_of_sent dn host response_port _ r d refl replied) (line-status _ short)

  -- Removing a directory gives the client the result of rmdir on the datanode whose reply it
  -- receives: 0, or -errno. The namenode has an address, the request fits its buffer and the reply
  -- is there within the wait; the two numbers of the reply have at most nine characters.
  xmp_rmdir-sendresponse_rmdir :
      length (my_path path) < 100
      → sendresponse_rmdir dn host dpath r ≡ some (sent d, r')
      → IsShortCall (dn.rmdir dpath r).0
      → xmp_rmdir os namenode (replies first d.payload) path s
        ≡ some (fuse_status (dn.rmdir dpath r).0)
  unfolding xmp_rmdir sendresponse_rmdir
  xmp_rmdir-sendresponse_rmdir fits replied short =
      operation-replies os namenode first s resolved in_time 100 d.payload (codes "rmdir")
        (my_path path) _ fits (omega arith)
      ∙ rw (payload_of_sent dn host response_port _ r d refl replied) (line-status _ short)

  -- The reply to a truncate tells the client the result of truncate on the datanode: 0, or -errno.
  -- The namenode has an address, the request fits its buffer and the reply is there within the
  -- wait; the two numbers of the reply have at most nine characters.
  xmp_truncate-sendresponse_truncate :
      (size dsize : ℤ)
      → length (truncate_request path size) < 100
      → sendresponse_truncate dn host dpath dsize r ≡ some (sent d, r')
      → IsShortCall (dn.truncate dpath dsize r).0
      → xmp_truncate os namenode (replies first d.payload) path size s
        ≡ some (fuse_status (dn.truncate dpath dsize r).0)
  unfolding xmp_truncate sendresponse_truncate
  xmp_truncate-sendresponse_truncate size dsize fits replied short =
      operation-replies os namenode first s resolved in_time 100 d.payload (codes "truncate")
        (truncate_request path size) (λ msg. received 100 msg >>= status_of) fits (omega arith)
      ∙ rw (payload_of_sent dn host response_port _ r d refl replied) (line-status _ short)

  -- Making a file gives the client the result of open_create on the datanode, or of the close
  -- behind it if that succeeds. The namenode has an address, the request fits its buffer and the
  -- reply is there within the wait; the two numbers of the reply have at most nine characters; the
  -- old string in the reply buffer does not reach past the reply.
  xmp_mknod-sendresponse_mknod :
      (mode rdev : ℤ) (old : Bytes)
      → length (mknod_request path mode rdev) < 100
      → sendresponse_mknod dn host dpath mode rdev r ≡ some (sent d, r')
      → IsShortCall (make_file dn dpath mode r).0
      → IsClear (length d.payload) old
      → xmp_mknod os namenode (replies first d.payload) path mode rdev old s
        ≡ some (fuse_status (make_file dn dpath mode r).0)
  unfolding xmp_mknod sendresponse_mknod
  xmp_mknod-sendresponse_mknod mode rdev old fits replied short clear =
      let e = payload_of_sent dn host response_port _ r d refl replied in
      operation-replies os namenode first s resolved in_time 100 d.payload (codes "mknod")
        (mknod_request path mode rdev) (λ msg. received_over 100 old msg >>= status_of) fits
        (omega arith)
      ∙ rw e (line-status_over _ old short (subst (λ t. IsClear (length t) old) e clear))

  -- Asking for access gives the client the result of access on the datanode: 0, or -errno. The
  -- namenode has an address, the request fits its buffer and the reply is there within the wait;
  -- the two numbers of the reply have at most nine characters; the old string in the reply buffer
  -- does not reach past the reply.
  xmp_access-sendresponse_access :
      (mask : ℤ) (old : Bytes)
      → length (access_request path mask) < 100
      → sendresponse_access dn host dpath mask r ≡ some (sent d, r')
      → IsShortCall (dn.access dpath mask r).0
      → IsClear (length d.payload) old
      → xmp_access os namenode (replies first d.payload) path mask old s
        ≡ some (fuse_status (dn.access dpath mask r).0)
  unfolding xmp_access sendresponse_access
  xmp_access-sendresponse_access mask old fits replied short clear =
      let e = payload_of_sent dn host response_port _ r d refl replied in
      operation-replies os namenode first s resolved in_time 100 d.payload (codes "access")
        (access_request path mask) (λ msg. received_over 100 old msg >>= status_of) fits
        (omega arith)
      ∙ rw e (text-status_over _ old short (subst (λ t. IsClear (length t) old) e clear))
