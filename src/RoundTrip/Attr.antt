-- ===== src/RoundTrip/Attr.antt =====
-- getattr: the stat that a datanode sends and the one that the client fills in.
use dsproj.Common.{
  subst, ℕ, ◌*◌, ◌/◌, ◌^◌, ◌<◌, ◌≤◌, ◌≡◌, ◌≢◌, refl, ◌∙◌, arith, ℤ, false, Option, some, none, List,
  [], ◌∷◌, length, length-append, All, All-append, if◌then◌else◌, ◌>>=◌, eq_ℤ, minus_one, neg, pos,
  Bool-cases, inl, inr,
}
use dsproj.Text.{Bytes, codes, snprintf10, Lacks}
use dsproj.Text.Number.{
  IsShort, snprintf10-IsField, length-snprintf10, atoi-snprintf10, atoi-snprintf10_cut,
  snprintf10-minus_one,
}
use dsproj.Posix.{Posix, Call, Stat, sent, Datagram, found, hostname_to_ip, response_port}
use dsproj.Reply.{getattr_text, comma_list, stat_fields, sendresponse_getattr}
use dsproj.Client.{my_path, received}
use dsproj.Client.Attr.{read_stat, read_getattr, my_getattr}
use dsproj.RoundTrip.Buffer.{
  seen, number-field, number-last, number-seen, number-seen_last, received-text, IsShortCall,
}
use dsproj.RoundTrip.Exchange.{replies, operation_into-replies, payload_of_sent}

-- The stat of which every field went through the text.
abbrev pub seen_stat : Stat → Stat
seen_stat st = record {
  st_mode = seen st.st_mode;
  st_ino = seen st.st_ino;
  st_dev = seen st.st_dev;
  st_rdev = seen st.st_rdev;
  st_nlink = seen st.st_nlink;
  st_uid = seen st.st_uid;
  st_gid = seen st.st_gid;
  st_size = seen st.st_size;
  st_atime = seen st.st_atime;
  st_mtime = seen st.st_mtime;
  st_ctime = seen st.st_ctime;
  st_blksize = seen st.st_blksize;
  st_blocks = seen st.st_blocks;
}

read_stat-fields : (st : Stat) → read_stat (comma_list (stat_fields st)) ≡ some (seen_stat st)
unfolding read_stat
read_stat-fields st = rw (
  number-seen st.st_mode _,
  number-seen st.st_ino _,
  number-seen st.st_dev _,
  number-seen st.st_rdev _,
  number-seen st.st_nlink _,
  number-seen st.st_uid _,
  number-seen st.st_gid _,
  number-seen st.st_size _,
  number-seen st.st_atime _,
  number-seen st.st_mtime _,
  number-seen st.st_ctime _,
  number-seen st.st_blksize _,
  number-seen_last st.st_blocks,
)

comma_list-Lacks : (vs : List ℤ) → Lacks 0 (comma_list vs)
comma_list-Lacks [] = tt
comma_list-Lacks (v ∷ []) = (snprintf10-IsField v).no_nul
comma_list-Lacks (v ∷ w ∷ vs) =
    All-append (λ c. c ≢ 0) (snprintf10 v) _ (snprintf10-IsField v).no_nul
      (omega arith, comma_list-Lacks (w ∷ vs))

length-comma_list : (vs : List ℤ) → length (comma_list vs) ≤ 10 * length vs
length-comma_list [] = omega arith
length-comma_list (v ∷ []) = omega (arith, length-snprintf10 v)
length-comma_list (v ∷ w ∷ vs) =
    rw length-append (omega (arith, length-snprintf10 v, length-comma_list (w ∷ vs)))

-- The reply as one list of numbers, whether the call failed or not.
abbrev numbers : Call → Stat → List ℤ
numbers c st =
    if eq_ℤ c.res minus_one then minus_one ∷ c.errno ∷ [] else c.res ∷ c.errno ∷ stat_fields st

getattr_text-numbers : (c : Call) (st : Stat) → getattr_text c st ≡ comma_list (numbers c st)
getattr_text-numbers c st = elim (Bool-cases (eq_ℤ c.res minus_one)) [
  | inl e ↦ rw (e, snprintf10-minus_one)
  | inr e ↦ rw e
]

length-numbers : (c : Call) (st : Stat) → length (numbers c st) ≤ 15
length-numbers c st = elim (Bool-cases (eq_ℤ c.res minus_one)) [
  | inl e ↦ rw e (omega arith)
  | inr e ↦ rw e (omega arith)
]

received-getattr :
    (c : Call) (st : Stat) → received 1000 (getattr_text c st) ≡ some (getattr_text c st)
received-getattr c st = rw (getattr_text-numbers c st) (
    received-text 1000 (comma_list (numbers c st)) (comma_list-Lacks (numbers c st))
      (omega (arith, length-comma_list (numbers c st), length-numbers c st)))

-- What getattr makes of the reply: -errno alone, or 0 and the stat.
abbrev pub getattr_result : Call → Stat → ℤ × Option Stat
getattr_result c st = if eq_ℤ c.res minus_one then (neg c.errno, none) else (pos 0, some st)

read_getattr-text :
    (c : Call) (st : Stat)
    → IsShortCall c
    → read_getattr (getattr_text c st) ≡ some (getattr_result c (seen_stat st))
unfolding read_getattr
read_getattr-text c st (hr, he) = elim (Bool-cases (eq_ℤ c.res minus_one)) [
  | inl e ↦
      rw (getattr_text-numbers c st, e)
        (rw (number-field minus_one (snprintf10 c.errno) (omega arith), number-last c.errno he))
  | inr e ↦
      rw (getattr_text-numbers c st, e)
        (rw (number-field c.res (comma_list (c.errno ∷ stat_fields st)) hr) (
          rw (number-field c.errno (comma_list (stat_fields st)) he, e) (rw (read_stat-fields st))))
]

stat-eq : (st : Stat) → All IsShort (stat_fields st) → seen_stat st ≡ st
stat-eq st h = λ i. record {
  st_mode = atoi-snprintf10 st.st_mode h.0 i;
  st_ino = atoi-snprintf10 st.st_ino h.1.0 i;
  st_dev = atoi-snprintf10 st.st_dev h.1.1.0 i;
  st_rdev = atoi-snprintf10 st.st_rdev h.1.1.1.0 i;
  st_nlink = atoi-snprintf10 st.st_nlink h.1.1.1.1.0 i;
  st_uid = atoi-snprintf10 st.st_uid h.1.1.1.1.1.0 i;
  st_gid = atoi-snprintf10 st.st_gid h.1.1.1.1.1.1.0 i;
  st_size = atoi-snprintf10 st.st_size h.1.1.1.1.1.1.1.0 i;
  st_atime = atoi-snprintf10 st.st_atime h.1.1.1.1.1.1.1.1.0 i;
  st_mtime = atoi-snprintf10 st.st_mtime h.1.1.1.1.1.1.1.1.1.0 i;
  st_ctime = atoi-snprintf10 st.st_ctime h.1.1.1.1.1.1.1.1.1.1.0 i;
  st_blksize = atoi-snprintf10 st.st_blksize h.1.1.1.1.1.1.1.1.1.1.1.0 i;
  st_blocks = atoi-snprintf10 st.st_blocks h.1.1.1.1.1.1.1.1.1.1.1.1.0 i;
}

neq_ℤ : (v : ℤ) → v ≢ minus_one → eq_ℤ v minus_one ≡ false
neq_ℤ v h = ground arith

module _ {S R : Type 0} (os : Posix S) (dn : Posix R) (namenode path host dpath : Bytes) (first : ℕ)
    (s : S) (r : R) {ip : Bytes} (resolved : hostname_to_ip os namenode ≡ found ip)
    (in_time : first ≤ 100) (d : Datagram) {r' : R} where
  seen_result :
      length (my_path path) < 100
      → sendresponse_getattr dn host dpath r ≡ some (sent d, r')
      → IsShortCall (dn.stat dpath r).0
      → my_getattr os namenode (replies first d.payload) path s
        ≡ some (getattr_result (dn.stat dpath r).0 (seen_stat (dn.stat dpath r).1))
  unfolding my_getattr sendresponse_getattr
  seen_result fits replied short =
      operation_into-replies os namenode first s resolved in_time 100 d.payload (codes "getattr")
        (my_path path) (λ msg. received 1000 msg >>= read_getattr) fits (omega arith)
      ∙ rw
          (
            payload_of_sent dn host response_port _ r d refl replied,
            received-getattr (dn.stat dpath r).0 (dn.stat dpath r).1,
          )
          (read_getattr-text (dn.stat dpath r).0 (dn.stat dpath r).1 short)

  -- getattr gives the client -errno if stat failed on the datanode, else 0 and the very stat, if
  -- all numbers in the reply have at most nine characters. The namenode has an address, the request
  -- fits its buffer and the reply is there within the wait.
  pub my_getattr-sendresponse_getattr :
      length (my_path path) < 100
      → sendresponse_getattr dn host dpath r ≡ some (sent d, r')
      → IsShortCall (dn.stat dpath r).0
      → All IsShort (stat_fields (dn.stat dpath r).1)
      → my_getattr os namenode (replies first d.payload) path s
        ≡ some (getattr_result (dn.stat dpath r).0 (dn.stat dpath r).1)
  my_getattr-sendresponse_getattr fits replied short fields =
      subst
        (λ st.
          my_getattr os namenode (replies first d.payload) path s
          ≡ some (getattr_result (dn.stat dpath r).0 st))
        (stat-eq (dn.stat dpath r).1 fields) (seen_result fits replied short)

  -- A successful getattr whose modification time has ten digits, as every time from September 2001
  -- on, gives the client a tenth of that time. The namenode has an address, the request fits its
  -- buffer and the reply is there within the wait; the result and errno of stat have at most nine
  -- characters.
  pub my_getattr_time_cut :
      (mtime : ℕ)
      → length (my_path path) < 100
      → sendresponse_getattr dn host dpath r ≡ some (sent d, r')
      → IsShortCall (dn.stat dpath r).0
      → (dn.stat dpath r).0.res ≢ minus_one
      → (dn.stat dpath r).1.st_mtime ≡ pos mtime
      → 10 ^ 9 ≤ mtime
      → mtime < 10 ^ 10
      → (st : Stat) × (my_getattr os namenode (replies first d.payload) path s
          ≡ some (pos 0, some st))
        × (st.st_mtime ≡ pos (mtime / 10))
  my_getattr_time_cut mtime fits replied short works time low high = (
    seen_stat (dn.stat dpath r).1,
    seen_result fits replied short ∙ rw (neq_ℤ (dn.stat dpath r).0.res works),
    rw time (atoi-snprintf10_cut mtime low high),
  )
