-- ===== src/Server.antt =====
-- receivecommand_server of socket_command.c: the loop of a node that clients reach with no namenode
-- between them, on "command,path,…" itself.
pub mod Forwarded
use dsproj.Common.{
  ◌<◌, ◌≡◌, arith, refl, sym, subst, Bool, Bool-cases, Option-cases, inl, inr, true, false,
  if◌then◌else◌, Option, none, some, ◌∷◌, ◌++◌, ◌>>=◌, take, length, length-append, All-append, ◌≢◌,
  pos,
}
use dsproj.Text.{Bytes, codes, comma, Lacks, c_str, same, strtok, within, number}
use dsproj.Text.Number.{IsField}
use dsproj.Posix.{Posix, Sent, hostname_to_ip, not_present, not_written, found}
use dsproj.Reply.{
  sendresponse_chmod, sendresponse_rename, sendresponse_statfs, sendresponse_rmdir,
  sendresponse_unlink, sendresponse_truncate, sendresponse_access, sendresponse_readdir,
  sendresponse_mkdir, sendresponse_getattr,
}
use dsproj.Reply.Files.{
  sendresponse_mknod, sendresponse_open, sendresponse_read, sendresponse_write,
}
use dsproj.Registry.{Lists, datanode_insert}
use dsproj.Registry.Known.{same-eq}
use dsproj.RoundTrip.Buffer.{received-text, strtok-IsField, within-fits}
use dsproj.Dispatch.{
  number_or_zero, token_or_null, takes_path, path_order, read_order, read_message, serve, Turn,
  receivecommand_datanode,
}

-- The tests on the command, from the first to the last, and the call of each: the path is the next part.
-- A path that is missing would be NULL for the system call, as in read_order.
module _ {S : Type 0} (os : Posix S) where
  abbrev goes_on : Lists → Option (Sent × S) → Option (Turn × S)
  goes_on lists m = m >>= λ (sending, s1).
      some (record { running = true; reply = some sending; lists = lists }, s1)

  abbrev nothing_sent : Bool → Lists → S → Option (Turn × S)
  nothing_sent running lists s = some (record { running = running; reply = none; lists = lists }, s)

  -- The number behind the path must be there, or is 0 if it is not.
  abbrev path_then : Bytes → (Bytes → Bytes → Option (Turn × S)) → Option (Turn × S)
  path_then rest call = strtok comma rest >>= λ (path, rest1). call path rest1

  server_call : Bytes → Bytes → Bytes → Lists → S → Option (Turn × S)
  server_call host cmd rest lists s =
      if same cmd (codes "getattr")
      then path_then rest (λ path _. goes_on lists (sendresponse_getattr os host path s))
      else if same cmd (codes "datanode")
      then elim (hostname_to_ip os host) [
        | not_present ↦ nothing_sent false lists s
        | not_written ↦ none
        | found ip ↦
            (datanode_insert host ip (pos 1) lists >>= λ lists'. nothing_sent true lists' s)
      ]
      else if same cmd (codes "access")
      then path_then rest (λ path rest1.
        number rest1 >>= λ (v, _). goes_on lists (sendresponse_access os host path v s))
      else if same cmd (codes "readdir")
      then path_then rest (λ path _. goes_on lists (sendresponse_readdir os host path s))
      else if same cmd (codes "open")
      then path_then rest (λ path rest1.
        number rest1 >>= λ (v, _). goes_on lists (sendresponse_open os host path v s))
      else if same cmd (codes "read")
      then path_then rest (λ path rest1.
        (let (v, rest2) = number_or_zero rest1 in
          let (w, _) = number_or_zero rest2 in
          goes_on lists (sendresponse_read os host path v w s)))
      else if same cmd (codes "write")
      then path_then rest (λ path rest1.
        (let (v, rest2) = number_or_zero rest1 in
          let (w, rest3) = number_or_zero rest2 in
          goes_on lists (sendresponse_write os host path v w (token_or_null rest3) s)))
      else if same cmd (codes "mkdir")
      then path_then rest (λ path rest1.
        number rest1 >>= λ (v, _). goes_on lists (sendresponse_mkdir os host path v s))
      else if same cmd (codes "mknod")
      then path_then rest (λ path rest1.
        (let (v, rest2) = number_or_zero rest1 in
          let (w, _) = number_or_zero rest2 in
          goes_on lists (sendresponse_mknod os host path v w s)))
      else if same cmd (codes "truncate")
      then path_then rest (λ path rest1.
        goes_on lists (sendresponse_truncate os host path (number_or_zero rest1).0 s))
      else if same cmd (codes "unlink")
      then path_then rest (λ path _. goes_on lists (sendresponse_unlink os host path s))
      else if same cmd (codes "rmdir")
      then path_then rest (λ path _. goes_on lists (sendresponse_rmdir os host path s))
      else if same cmd (codes "statfs")
      then path_then rest (λ path _. goes_on lists (sendresponse_statfs os host path s))
      else if same cmd (codes "chmod")
      then path_then rest (λ path rest1.
        number rest1 >>= λ (v, _). goes_on lists (sendresponse_chmod os host path v s))
      else if same cmd (codes "rename")
      then path_then rest
          (λ path rest1. goes_on lists (sendresponse_rename os host path (token_or_null rest1) s))
      else nothing_sent true lists s

  -- One turn of the loop on a message from the host that getnameinfo gives.
  pub receivecommand_server : Bytes → Bytes → Lists → S → Option (Turn × S)
  unfolding server_call
  receivecommand_server host msg lists s = do
    buf1 ← within 1000 (c_str (take 1000 msg))
    (cmd, rest) ← strtok comma buf1
    server_call host cmd rest lists s
