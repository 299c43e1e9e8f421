-- ===== src/Replica.antt =====
-- Replication: the commands between the namenode and its datanodes (replica_sockets.c), and the copying
-- of a file from one datanode to another (replica.c).
pub mod Turns
pub mod Peers
pub mod Copy
use dsproj.Common.{
  ℕ, ℤ, pos, minus_one, eq_ℤ, neg, Bool, true, false, if◌then◌else◌, Option, none, some, List, [],
  ◌∷◌, ◌++◌, take, ◌>>=◌, ◌>>◌,
}
use dsproj.Text.{Bytes, codes, comma, c_str, same, strtok, atoi, within, number, snprintf10}
use dsproj.Wait.{wait_flag}
use dsproj.Posix.{
  Posix, Call, Stat, Sent, failed, sent, Datagram, send_to, hostname_to_ip, HostIp, not_present,
  not_written, found,
}
use dsproj.Reply.{result_text}
use dsproj.Reply.Files.{read_file}
use dsproj.Client.{received, flag_of}

abbrev pub replication_port : ℕ
replication_port = 8019

-- The C library's streams over a state `S`, `F` for FILE *: fopen with "w", none for NULL; fwrite of a
-- text as one item, with the errno behind it; and fclose. `through_int` is the stream that a pointer means
-- behind its conversion to int and back, none if it means none.
pub record Stdio (S F : Type 0) : Type 0 where
  pub fopen : Bytes → S → Option F × S
  pub through_int : F → Option F
  pub fwrite : Bytes → F → S → Call × S
  pub fclose : F → S → S

abbrev pub file_exists : Bytes
file_exists = codes "replica_fileexists"

abbrev pub read_copy : Bytes
read_copy = codes "r_read"

abbrev pub write_copy : Bytes
write_copy = codes "r_write"

module _ {S : Type 0} (os : Posix S) where
  -- buf[1000] = cmd "," path
  unfoldable pub sendcommand_replica : Bytes → Bytes → Bytes → S → Option (Sent × S)
  sendcommand_replica node cmd path =
      send_to os node replication_port
        λ s. (within 1000 (cmd ++ (comma ∷ path)) >>= λ text. some (text, s))

  -- fexist of network_common.c: 0 if stat succeeds, else 1.
  abbrev pub fexist : Bytes → S → ℤ × S
  fexist filename s =
      let (c, st, s') = os.stat filename s in ((if eq_ℤ c.res (pos 0) then pos 0 else pos 1), s')

  unfoldable pub sendreplicaresponse_fileexist : Bytes → ℤ → S → Option (Sent × S)
  sendreplicaresponse_fileexist node fret =
      send_to os node replication_port λ s. some (snprintf10 fret ++ (comma ∷ []), s)

  -- With the size 4096 and the offset 0, the text is that of sendresponse_read, and fits readbuf[4196].
  unfoldable pub sendreplicaresponse_read : Bytes → Bytes → S → Option (Sent × S)
  sendreplicaresponse_read node path =
      send_to os node replication_port (read_file os path (pos 4096) (pos 0))

module _ {S F : Type 0} (os : Posix S) (io : Stdio S F) where
  -- The result of fopen is kept in an int, which is compared with -1, never with NULL, and fwrite and
  -- fclose go through that. (The address of a stream is aligned, so that the int is not -1.) The buffer
  -- is NULL if the command had no third part.
  unfoldable pub write_stream : Bytes → Option Bytes → S → Option (Bytes × S)
  write_stream path none s = none
  write_stream path (some buf) s =
      let (fd, s1) = io.fopen path s in
      fd >>= io.through_int >>= λ f.
      (let (c, s2) = io.fwrite buf f s1 in
        let res = if eq_ℤ c.res minus_one then neg c.errno else c.res in
        some (result_text (record c { res = res }), io.fclose f s2))

  unfoldable pub sendreplicaresponse_write : Bytes → Bytes → Option Bytes → S → Option (Sent × S)
  unfolding write_stream
  sendreplicaresponse_write node path buf = send_to os node replication_port (write_stream path buf)

  -- One turn of the loop of receivecommand_replica on a message from `host`: what was sent, if anything.
  -- A command without its path would give NULL to the system call, and is `none`.
  unfoldable pub receivecommand_replica : Bytes → Bytes → S → Option (Option Sent × S)
  receivecommand_replica host msg s =
      let replied : Option (Sent × S) → Option (Option Sent × S) =
        λ m. (m >>= λ (outcome, s'). some (some outcome, s')) in
      within 1000 (c_str (take 1000 msg)) >>= λ buf1. strtok comma buf1 >>= λ (cmd, rest).
      (let exists : Option (Option Sent × S) =
          (strtok comma rest >>= λ (path, _).
          (let (fret, s1) = fexist os path s in
            replied (sendreplicaresponse_fileexist os host fret s1))) in
        let read : Option (Option Sent × S) =
          (strtok comma rest >>= λ (path, _). replied (sendreplicaresponse_read os host path s)) in
        let write : Option (Option Sent × S) =
          (strtok comma rest >>= λ (path, more).
          replied
            (sendreplicaresponse_write host path (strtok comma more >>= λ (buf, _). some buf) s)) in
        if same cmd file_exists
        then exists
        else if same cmd read_copy
        then read
        else if same cmd write_copy
        then write
        else some (none, s))

-- How a function of replica.c ends: it waits for ever in pthread_join; it returns; or it reaches its end
-- without a value.
pub data Ended : Type 0 where
  waits : Ended
  returned : ℤ → Ended
  no_value : Ended

-- What the other nodes, in the state `R`, do with a datagram: the reply, if any, with the test of the
-- waiting loop at which it is there.
abbrev pub Nodes : Type 0 → Type 0
Nodes R = Datagram → R → Option (ℕ × Bytes) × R

-- char buf[4096] behind the third part of the reply, which may be missing.
abbrev pub content_of : Option (Bytes × Bytes) → Option Bytes
content_of none = some []
content_of (some (ptr, _)) = within 4096 ptr

module _ {S R : Type 0} (os : Posix S) (nodes : Nodes R) where
  -- What pthread_join brings, and `continue` on it in an array of that size.
  abbrev pub on_answer :
      ℕ → (Bytes → R → Option (Ended × R)) → Option (ℕ × Bytes) × R → Option (Ended × R)
  on_answer size continue (none, r) = some (waits, r)
  on_answer size continue (some (first, msg), r) = received size msg >>= λ buf. continue buf r

  -- A command that is sent and joined.
  abbrev pub joined :
      ℕ → Option (Sent × S) → (Bytes → R → Option (Ended × R)) → R → Option (Ended × R)
  joined size none continue r = none
  joined size (some (failed, s)) continue r = some (returned minus_one, r)
  joined size (some (sent d, s)) continue r = on_answer size continue (nodes d r)

  -- The third command is not joined but awaited in the bounded loop.
  abbrev pub awaited : Option (ℕ × Bytes) × R → Option (Ended × R)
  awaited (answer, r) =
      let used : Option (Ended × R) =
        (answer >>= λ (_, msg). received 100 msg >>= λ buf.
        number buf >>= λ (res, s1). number s1 >>= λ _. some (no_value, r)) in
      if wait_flag (flag_of answer) then used else some (returned minus_one, r)

  abbrev pub write_sent : Option (Sent × S) → R → Option (Ended × R)
  write_sent none r = none
  write_sent (some (failed, s)) r = some (returned minus_one, r)
  write_sent (some (sent d, s)) r = awaited (nodes d r)

  unfoldable pub write_replica : Bytes → Bytes → Bytes → S → R → Option (Ended × R)
  write_replica path repdn buf s r = within 4196 (path ++ (comma ∷ buf)) >>= λ my_path.
      write_sent (sendcommand_replica os repdn write_copy my_path s) r

  unfoldable pub read_replica : Bytes → Bytes → Bytes → S → R → Option (Ended × R)
  read_replica path primdn repdn s =
      joined 4196 (sendcommand_replica os primdn read_copy path s) λ buf r.
        (number buf >>= λ (res, s1). number s1 >>= λ (errno, s2).
        (let written : Option (Ended × R) =
            (content_of (strtok comma s2) >>= λ content. write_replica path repdn content s r) in
          if eq_ℤ res minus_one then some (returned (neg errno), r) else written))

  -- The first test of check_filepresent.
  abbrev pub if_present : R → Option (Ended × R) → HostIp → Option (Ended × R)
  if_present r checked not_present = some (returned minus_one, r)
  if_present r checked not_written = checked
  if_present r checked (found ip) = checked

  -- isDir only prints. check_filepresent is asked first, but only its failure changes what follows:
  -- a file that is there is written again.
  unfoldable pub create_replica : Bytes → Bytes → Bytes → S → R → Option (Ended × R)
  create_replica path primdn repdn s r =
      let checked : Option (Ended × R) =
        joined 100 (sendcommand_replica os repdn file_exists path s)
          (λ buf r1. (number buf >>= λ _. read_replica path primdn repdn s r1)) r in
      if_present r checked (hostname_to_ip os repdn)
