-- ===== src/Namenode.antt =====
-- The commands that the namenode takes (receivecommand_namenode of socket_command.c): it finds a
-- datanode for the path in its lists and passes the message on to it.
pub mod Relay
pub mod Route
pub mod Kept
pub mod Invariant
pub mod Saved
use dsproj.Common.{
  ℤ, pos, Bool, true, false, if◌then◌else◌, Option, none, some, List, [], ◌∷◌, ◌++◌, ◌>>=◌, ◌>>◌,
  take,
}
use dsproj.Text.{Bytes, codes, comma, c_str, same, strtok, within}
use dsproj.Posix.{Posix, not_present, not_written, found, hostname_to_ip, Sent, failed, sent}
use dsproj.Reply.{
  sendresponse_chmod, sendresponse_statfs, sendresponse_rmdir, sendresponse_unlink,
  sendresponse_truncate, sendresponse_access, sendresponse_readdir, sendresponse_mkdir,
  sendresponse_getattr,
}
use dsproj.Reply.Files.{
  sendresponse_mknod, sendresponse_open, sendresponse_read, sendresponse_write,
}
use dsproj.Client.{sendcommand}
use dsproj.Registry.{Lists, Pong, datanode_insert, filenode_insert}
use dsproj.Registry.Locate.{getfiledn}
use dsproj.Dispatch.{Turn}

abbrev pub junk : Bytes
junk = codes "Adasdadasdasda"

abbrev pub is_one_of : Bytes → List Bytes → Bool
is_one_of cmd [] = false
is_one_of cmd (c ∷ cs) = if same cmd c then true else is_one_of cmd cs

-- The commands that are passed on, and those of them that enter the path in the lists.
abbrev pub relayed_commands : List Bytes
relayed_commands =
    codes "getattr"
    ∷ codes "access"
    ∷ codes "readdir"
    ∷ codes "open"
    ∷ codes "read"
    ∷ codes "write"
    ∷ codes "mkdir"
    ∷ codes "mknod"
    ∷ codes "truncate"
    ∷ codes "unlink"
    ∷ codes "rmdir"
    ∷ codes "chmod"
    ∷ codes "rename"
    ∷ []

abbrev pub entering_commands : List Bytes
entering_commands = codes "open" ∷ codes "write" ∷ codes "mkdir" ∷ codes "mknod" ∷ []

module _ {S : Type 0} (os : Posix S) where
  -- With no datanode the namenode answers itself, for a path that no file has. For rename it calls
  -- sendresponse_rename without the third argument.
  unfoldable pub junk_response : Bytes → Bytes → S → Option (Sent × S)
  junk_response cmd host s =
      if same cmd (codes "getattr")
      then sendresponse_getattr os host junk s
      else if same cmd (codes "access")
      then sendresponse_access os host junk (pos 0) s
      else if same cmd (codes "readdir")
      then sendresponse_readdir os host junk s
      else if same cmd (codes "open")
      then sendresponse_open os host junk (pos 0) s
      else if same cmd (codes "read")
      then sendresponse_read os host junk (pos 0) (pos 0) s
      else if same cmd (codes "write")
      then sendresponse_write os host junk (pos 0) (pos 0) (some junk) s
      else if same cmd (codes "mkdir")
      then sendresponse_mkdir os host junk (pos 0) s
      else if same cmd (codes "mknod")
      then sendresponse_mknod os host junk (pos 0) (pos 0) s
      else if same cmd (codes "truncate")
      then sendresponse_truncate os host junk (pos 0) s
      else if same cmd (codes "unlink")
      then sendresponse_unlink os host junk s
      else if same cmd (codes "rmdir")
      then sendresponse_rmdir os host junk s
      else if same cmd (codes "chmod")
      then sendresponse_chmod os host junk (pos 0) s
      else none

  -- Behind the sending: the loop is left if a getattr could not be sent, and the path is entered if
  -- the command asks for it and was sent.
  unfoldable pub after_relay : Bytes → Bytes → Bytes → Lists → Sent × S → Option (Turn × S)
  after_relay cmd path dn lists (failed, s) = some (
    record {
      running = if same cmd (codes "getattr") then false else true;
      reply = some failed;
      lists = lists;
    },
    s,
  )
  after_relay cmd path dn lists (sent d, s) =
      if is_one_of cmd entering_commands
      then (filenode_insert path (pos 0) (pos 0) dn lists >>= λ lists'.
          some (record { running = true; reply = some (sent d); lists = lists' }, s))
      else some (record { running = true; reply = some (sent d); lists = lists }, s)

  -- A command with a path. A missing path is measured by strlen(NULL).
  unfoldable pub relay : Pong → Bytes → Bytes → Bytes → Bytes → Lists → S → Option (Turn × S)
  unfolding after_relay junk_response
  relay pong host buf2 cmd path lists s = do
    (dpath, lists1) ← getfiledn pong path host lists
    elim dpath [
      | none ↦ do
        (sending, s1) ← junk_response cmd host s
        some (record { running = true; reply = some sending; lists = lists1 }, s1)
      | some dn ↦ do outcome ← sendcommand os dn buf2 cmd s; after_relay cmd path dn lists1 outcome
    ]

  -- The commands that are not passed on: a datanode registers, or asks for the file system's numbers.
  unfoldable pub answer_command : Bytes → Bytes → Bytes → Lists → S → Option (Turn × S)
  answer_command host cmd rest lists s =
      let registered : Option (Turn × S) = elim (hostname_to_ip os host) [
        | not_present ↦ some (record { running = false; reply = none; lists = lists }, s)
        | not_written ↦ none
        | found ip ↦
            (datanode_insert host ip (pos 1) lists >>= λ lists'.
            some (record { running = true; reply = none; lists = lists' }, s))
      ] in
      let measured : Option (Turn × S) = do
        (path, _) ← strtok comma rest
        (sending, s1) ← sendresponse_statfs os host path s
        some (record { running = true; reply = some sending; lists = lists }, s1)
      in if same cmd (codes "datanode")
        then registered
        else if same cmd (codes "statfs")
        then measured
        else some (record { running = true; reply = none; lists = lists }, s)

  -- One turn of the loop on a message from the host that getnameinfo gives. The texts of the commands
  -- differ, so their order in the chain of tests does not matter.
  unfoldable pub receivecommand_namenode : Pong → Bytes → Bytes → Lists → S → Option (Turn × S)
  unfolding relay answer_command
  receivecommand_namenode pong host msg lists s = do
    buf1 ← within 1000 (c_str (take 1000 msg))
    buf2 ← within 1000 (host ++ (comma ∷ buf1))
    (cmd, rest) ← strtok comma buf1
    let passed : Option (Turn × S) = do
      (path, _) ← strtok comma rest
      relay pong host buf2 cmd path lists s
    if is_one_of cmd relayed_commands then passed else answer_command host cmd rest lists s
