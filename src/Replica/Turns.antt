-- ===== src/Replica/Turns.antt =====
-- The turns of receivecommand_replica (replica_sockets.c) on the commands of create_replica.
use dsproj.Common.{
  ◌+◌, ◌<◌, ◌≡◌, ◌≢◌, refl, arith, pos, some, [], ◌∷◌, ◌++◌, length, length-append, All-append,
}
use dsproj.Text.{Bytes, comma, Lacks, snprintf10, strtok}
use dsproj.Text.Number.{IsField}
use dsproj.Text.Token.{strtok-last}
use dsproj.Posix.{Posix, sent, Datagram, hostname_to_ip, found}
use dsproj.Reply.Files.{read_file}
use dsproj.Dispatch.Request.{literal-IsField}
use dsproj.RoundTrip.Buffer.{received-text, strtok-IsField}
use dsproj.RoundTrip.Exchange.{send_to-found}
use dsproj.Replica.{
  replication_port, Stdio, file_exists, read_copy, write_copy, fexist,
  sendreplicaresponse_fileexist, sendreplicaresponse_read, sendreplicaresponse_write, write_stream,
  receivecommand_replica,
}

abbrev pub to_node : Bytes → Bytes → Datagram
to_node ip text = record { to_ip = ip; to_port = replication_port; payload = text }

pub command-Lacks :
    (cmd text : Bytes) → IsField cmd → Lacks 0 text → Lacks 0 (cmd ++ (comma ∷ text))
command-Lacks cmd text h l = All-append (λ c. c ≢ 0) cmd (comma ∷ text) h.no_nul (omega arith, l)

file_exists-IsField : IsField file_exists
file_exists-IsField = literal-IsField file_exists refl refl (λ e. cc)

read_copy-IsField : IsField read_copy
read_copy-IsField = literal-IsField read_copy refl refl (λ e. cc)

write_copy-IsField : IsField write_copy
write_copy-IsField = literal-IsField write_copy refl refl (λ e. cc)

module _ {S F : Type 0} (os : Posix S) (io : Stdio S F) (host ip path : Bytes) (s : S)
    (back : hostname_to_ip os host ≡ found ip) (field : IsField path) where
  only_path : strtok comma path ≡ some (path, [])
  only_path = strtok-last comma path field.not_empty field.no_comma

  pub turn-exists :
      length path < 980
      → receivecommand_replica os io host (file_exists ++ (comma ∷ path)) s
        ≡ some (
          some (sent (to_node ip (snprintf10 (fexist os path s).0 ++ (comma ∷ [])))),
          (fexist os path s).1,
        )
  unfolding receivecommand_replica
  turn-exists fits =
      let reply : sendreplicaresponse_fileexist os host (fexist os path s).0 (fexist os path s).1
          ≡ some (
            sent (to_node ip (snprintf10 (fexist os path s).0 ++ (comma ∷ []))),
            (fexist os path s).1,
          ) =
        unfold sendreplicaresponse_fileexist in
        (send_to-found os host replication_port _ (fexist os path s).1 back refl) in
      rw
        (
          received-text 1000 (file_exists ++ (comma ∷ path))
              (command-Lacks file_exists path file_exists-IsField field.no_nul) (omega arith),
          strtok-IsField file_exists path file_exists-IsField,
          only_path,
          reply,
        )
        refl

  pub turn-read :
      {s' : S} {text : Bytes}
      → length path < 980
      → read_file os path (pos 4096) (pos 0) s ≡ some (text, s')
      → receivecommand_replica os io host (read_copy ++ (comma ∷ path)) s
        ≡ some (some (sent (to_node ip text)), s')
  unfolding receivecommand_replica
  turn-read {s'} {text} fits done =
      let reply : sendreplicaresponse_read os host path s ≡ some (sent (to_node ip text), s') =
        unfold sendreplicaresponse_read in (send_to-found os host replication_port _ s back done) in
      rw
        (
          received-text 1000 (read_copy ++ (comma ∷ path))
              (command-Lacks read_copy path read_copy-IsField field.no_nul) (omega arith),
          strtok-IsField read_copy path read_copy-IsField,
          only_path,
          reply,
        )
        refl

  pub turn-write :
      (content : Bytes) {s' : S} {text : Bytes}
      → IsField content
      → length path + length content < 980
      → write_stream os io path (some content) s ≡ some (text, s')
      → receivecommand_replica os io host (write_copy ++ (comma ∷ (path ++ (comma ∷ content)))) s
        ≡ some (some (sent (to_node ip text)), s')
  unfolding receivecommand_replica
  turn-write content {s'} {text} filled fits done =
      let reply : sendreplicaresponse_write os io host path (some content) s
          ≡ some (sent (to_node ip text), s') =
        unfold sendreplicaresponse_write in
        (send_to-found os host replication_port _ s back done) in
      let whole = path ++ (comma ∷ content) in
      rw
        (
          received-text 1000 (write_copy ++ (comma ∷ whole))
              (command-Lacks write_copy whole write_copy-IsField
                (command-Lacks path content field filled.no_nul))
              (omega (arith, length-append path (comma ∷ content))),
          strtok-IsField write_copy whole write_copy-IsField,
          strtok-IsField path content field,
          strtok-last comma content filled.not_empty filled.no_comma,
          reply,
        )
        refl
