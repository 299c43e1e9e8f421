-- ===== src/Replica/Copy.antt =====
-- The copying of a file (replica.c): create_replica together with receivecommand_replica on two
-- datanodes.
use dsproj.Replica.Peers.{Peer, two_nodes, asks-prim, asks-rep}
use dsproj.Common.{
  Option-cases, inl, inr, ℕ, ◌+◌, ◌<◌, ◌≤◌, ◌≡◌, ◌≢◌, refl, subst, ◌∙◌, arith, pos, minus_one, eq_ℤ,
  neg, Option, none, some, ◌>>=◌, [], ◌∷◌, ◌++◌, if◌then◌else◌, length, length-append,
}
use dsproj.Text.{Bytes, comma, Lacks, c_str, snprintf10, within}
use dsproj.Text.Number.{IsField, snprintf10-IsField, length-snprintf10}
use dsproj.Text.Token.{strtok-last}
use dsproj.Wait.{wait_flag_iff}
use dsproj.Posix.{Posix, Call, sent, hostname_to_ip, found, send_to}
use dsproj.Reply.{result_text}
use dsproj.Client.{flag_of}
use dsproj.RoundTrip.Buffer.{
  within-fits, received-text, IsShortCall, number-field, number-seen, number-seen_last,
}
use dsproj.RoundTrip.Exchange.{send_to-found}
use dsproj.RoundTrip.Read.{
  read_call, read_bytes, read_reply, read_reply-Lacks, length-read_reply, read_file-text,
}
use dsproj.RoundTrip.Status.{text-Lacks, length-text}
use dsproj.RoundTrip.Write.{neq_ℤ}
use dsproj.Replica.{
  replication_port, file_exists, read_copy, write_copy, sendcommand_replica, fexist, write_stream,
  Ended, no_value, Nodes, joined, awaited, write_replica, read_replica, create_replica,
}
use dsproj.Replica.Turns.{to_node, command-Lacks, turn-exists, turn-read, turn-write}

-- A command that is sent and joined.
joined-answer :
    {S R : Type 0} (os : Posix S) (nodes : Nodes R) (size : ℕ) (node cmd path text : Bytes) (s : S)
    (r r' : R) (continue : Bytes → R → Option (Ended × R)) {ip : Bytes} {first : ℕ}
    → hostname_to_ip os node ≡ found ip
    → length cmd + length path < 999
    → nodes (to_node ip (cmd ++ (comma ∷ path))) r ≡ (some (first, text), r')
    → Lacks 0 text
    → length text < size
    → joined os nodes size (sendcommand_replica os node cmd path s) continue r ≡ continue text r'
unfolding sendcommand_replica
joined-answer os nodes size node cmd path text s r r' continue named fits brings lacks small =
    let sending =
      send_to-found os node replication_port
        (λ s. (within 1000 (cmd ++ (comma ∷ path)) >>= λ text. some (text, s))) s
        {text = cmd ++ (comma ∷ path)} {s' = s} named
        (rw (
          within-fits 1000 (cmd ++ (comma ∷ path))
            (omega (arith, length-append cmd (comma ∷ path))))) in
    rw (sending, brings, received-text size text lacks small) refl

-- The last reply is awaited and parsed.
awaited-answer :
    {S R : Type 0} (os : Posix S) (nodes : Nodes R) (first : ℕ) (w : Call) (r : R)
    → first ≤ 100
    → awaited os nodes (some (first, result_text w), r) ≡ some (no_value, r)
awaited-answer os nodes first w r in_time =
    rw
      (
        (wait_flag_iff (flag_of (some (first, result_text w)))).1 first in_time (ground arith),
        received-text 100 (result_text w) (text-Lacks w) (omega (arith, length-text w)),
        number-seen w.res (snprintf10 w.errno),
        number-seen_last w.errno,
      )
      refl

module _ {S P Q F G : Type 0} (os : Posix S) (prim : Peer P F) (rep : Peer Q G)
    (my_ip primdn repdn path : Bytes) (first : ℕ) (s : S) (p : P) (q : Q)
    (prim_named : hostname_to_ip os primdn ≡ found prim.ip)
    (rep_named : hostname_to_ip os repdn ≡ found rep.ip)
    (prim_back : hostname_to_ip prim.os prim.host ≡ found my_ip)
    (rep_back : hostname_to_ip rep.os rep.host ≡ found my_ip) (apart : rep.ip ≢ prim.ip)
    (in_time : first ≤ 100) (field : IsField path) where
  write_replica-copied :
      (content : Bytes) (f : G) {p' : P} {q1 q2 : Q}
      → IsField content
      → length path + length content < 980
      → rep.io.fopen path q1 ≡ (some f, q2)
      → rep.io.through_int f ≡ some f
      → write_replica os (two_nodes prim rep my_ip first) path repdn content s (p', q1)
        ≡ some (no_value, (p', rep.io.fclose f (rep.io.fwrite content f q2).1))
  unfolding write_replica
  write_replica-copied content f {p'} {q1} {q2} filled fits opens kept =
      let (c, q3) = rep.io.fwrite content f q2 in
      let w : Call = record c { res = if eq_ℤ c.res minus_one then neg c.errno else c.res } in
      let whole = path ++ (comma ∷ content) in
      let size = length-append path (comma ∷ content) in
      let written : write_stream rep.os rep.io path (some content) q1
          ≡ some (result_text w, rep.io.fclose f q3) =
        unfold write_stream in (rw (opens, kept) refl) in
      let turn =
        turn-write rep.os rep.io rep.host my_ip path q1 rep_back field content filled fits
          written in
      let brings =
        asks-rep prim rep my_ip first p' q1 (write_copy ++ (comma ∷ whole)) (result_text w) apart
          turn in
      let sending : sendcommand_replica os repdn write_copy whole s
          ≡ some (sent (to_node rep.ip (write_copy ++ (comma ∷ whole))), s) =
        unfold sendcommand_replica in
        (send_to-found os repdn replication_port _ s rep_named
          (rw (within-fits 1000 (write_copy ++ (comma ∷ whole)) (omega (arith, size))) refl)) in
      rw (within-fits 4196 whole (omega (arith, size)), sending, brings)
        (awaited-answer os (two_nodes prim rep my_ip first) first w (p', rep.io.fclose f q3)
          in_time)

  read_replica-copied :
      (content : Bytes) (f : G) (call : Call) {p' : P} {q1 q2 : Q}
      → Lacks 0 (read_reply call content)
      → IsField content
      → length path + length content < 980
      → call.res ≢ minus_one
      → IsShortCall call
      → two_nodes prim rep my_ip first (to_node prim.ip (read_copy ++ (comma ∷ path))) (p, q1)
        ≡ (some (first, read_reply call content), (p', q1))
      → rep.io.fopen path q1 ≡ (some f, q2)
      → rep.io.through_int f ≡ some f
      → read_replica os (two_nodes prim rep my_ip first) path primdn repdn s (p, q1)
        ≡ some (no_value, (p', rep.io.fclose f (rep.io.fwrite content f q2).1))
  unfolding read_replica read_reply
  read_replica-copied content f call {p'} {q1} lacks filled fits reads short reading fopens kept =
      joined-answer os (two_nodes prim rep my_ip first) 4196 primdn read_copy path
        (read_reply call content) s (p, q1) (p', q1) _ prim_named (omega arith) reading lacks
        (omega (arith, length-read_reply call content))
      ∙ rw
          (
            number-field call.res (snprintf10 call.errno ++ (comma ∷ content)) short.0,
            number-field call.errno content short.1,
            neq_ℤ call.res reads,
            strtok-last comma content filled.not_empty filled.no_comma,
            within-fits 4096 content (omega arith),
          )
          (write_replica-copied content f filled fits fopens kept)

  -- With receivecommand_replica at work on the two datanodes: create_replica writes to the path on the
  -- second one exactly the bytes, up to a NUL, that the open, pread and close of the path read on the
  -- first; it reaches its end without a value, and the second datanode is left as the stat, fopen,
  -- fwrite and fclose leave it. The three nodes find each other, the datanodes have different addresses,
  -- and the last reply is there within the wait. The path and the bytes are not empty and have no comma
  -- and no NUL; together they are shorter than 980; the open and the pread succeed, the two numbers of
  -- their reply have at most nine characters, fewer than 4096 bytes were read; and the fopen succeeds
  -- with a pointer that the conversion to int and back does not change.
  pub create_replica-copied :
      (f : G) {q2 : Q}
      → let content = c_str (read_bytes prim.os path (pos 4096) (pos 0) p) in
        let q1 = (fexist rep.os path q).1 in
        IsField content
        → length path + length content < 980
        → (prim.os.open_file path (pos 0) p).0.res ≢ minus_one
        → (read_call prim.os path (pos 4096) (pos 0) p).res ≢ minus_one
        → length (read_bytes prim.os path (pos 4096) (pos 0) p) < 4096
        → IsShortCall (read_call prim.os path (pos 4096) (pos 0) p)
        → rep.io.fopen path q1 ≡ (some f, q2)
        → rep.io.through_int f ≡ some f
        → (p' : P) × (create_replica os (two_nodes prim rep my_ip first) path primdn repdn s (p, q)
            ≡ some (no_value, (p', rep.io.fclose f (rep.io.fwrite content f q2).1)))
  unfolding create_replica
  create_replica-copied f {q2} filled fits opens reads few short fopens kept =
      let content = c_str (read_bytes prim.os path (pos 4096) (pos 0) p) in
      let call = read_call prim.os path (pos 4096) (pos 0) p in
      let nodes = two_nodes prim rep my_ip first in
      let fret = (fexist rep.os path q).0 in
      let q1 = (fexist rep.os path q).1 in
      let (p', read) = read_file-text prim.os path (pos 4096) (pos 0) p opens few in
      let exists =
        asks-rep prim rep my_ip first p q (file_exists ++ (comma ∷ path))
          (snprintf10 fret ++ (comma ∷ [])) apart
          (turn-exists rep.os rep.io rep.host my_ip path q rep_back field (omega arith)) in
      let reading =
        asks-prim prim rep my_ip first p q1 (read_copy ++ (comma ∷ path)) (read_reply call content)
          (turn-read prim.os prim.io prim.host my_ip path p prim_back field (omega arith) read) in
      let answered : Lacks 0 (snprintf10 fret ++ (comma ∷ [])) =
        command-Lacks (snprintf10 fret) [] (snprintf10-IsField fret) tt in
      (
        p',
        rw rep_named (
            joined-answer os nodes 100 repdn file_exists path (snprintf10 fret ++ (comma ∷ [])) s
              (p, q) (p, q1) _ rep_named (omega arith) exists answered
              (omega (arith, length-append (snprintf10 fret) (comma ∷ []), length-snprintf10 fret))
            ∙ rw (number-seen fret []) (
                read_replica-copied content f call (read_reply-Lacks call content filled.no_nul)
                  filled fits reads short reading fopens kept)),
      )

sendcommand_replica-none :
    {S : Type 0} (os : Posix S) (node cmd text : Bytes) (s : S) {ip : Bytes}
    → hostname_to_ip os node ≡ found ip
    → within 1000 (cmd ++ (comma ∷ text)) ≡ none
    → sendcommand_replica os node cmd text s ≡ none
unfolding sendcommand_replica send_to
sendcommand_replica-none os node cmd text s named outside = ground (arith, named, outside)

-- A path and a file's bytes that are together 991 bytes or longer do not fit the array of the command: if
-- the datanode is found, the writing of the copy runs past an array.
pub write_replica_overflow :
    {S R : Type 0} (os : Posix S) (nodes : Nodes R) (path repdn content : Bytes) (s : S) (r : R)
    {ip : Bytes}
    → hostname_to_ip os repdn ≡ found ip
    → 991 ≤ length path + length content
    → write_replica os nodes path repdn content s r ≡ none
unfolding write_replica
write_replica_overflow os nodes path repdn content s r named long =
    let whole = path ++ (comma ∷ content) in
    let outside : within 1000 (write_copy ++ (comma ∷ whole)) ≡ none =
      ground (arith, length-append path (comma ∷ content)) in
    elim (Option-cases (within 4196 whole)) [
      | inl e ↦ rw e refl
      | inr (my_path, e) ↦
          (let same_path : whole ≡ my_path = ground (arith, e) in
            let failing =
              subst (λ w. sendcommand_replica os repdn write_copy w s ≡ none) same_path
                (sendcommand_replica-none os repdn write_copy whole s named outside) in
            rw (e, failing) refl)
    ]
