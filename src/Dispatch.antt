-- ===== src/Dispatch.antt =====
-- The commands that a datanode takes (receivecommand_datanode of socket_command.c): the message is cut
-- into its parts and the call that answers it is made.
pub mod Request
pub mod Answered
pub mod Orders
use dsproj.Common.{
  ℕ, ℤ, pos, Bool, true, false, if◌then◌else◌, Option, none, some, List, [], ◌∷◌, ◌++◌, ◌>>=◌, ◌>>◌,
  take,
}
use dsproj.Text.{Bytes, codes, comma, c_str, same, strtok, atoi, within, number}
use dsproj.Posix.{Posix, HostIp, not_present, not_written, found, hostname_to_ip, Sent, Datagram}
use dsproj.Reply.{
  sendresponse_chmod, sendresponse_rename, sendresponse_statfs, sendresponse_rmdir,
  sendresponse_unlink, sendresponse_truncate, sendresponse_access, sendresponse_readdir,
  sendresponse_mkdir, sendresponse_getattr,
}
use dsproj.Reply.Files.{
  sendresponse_mknod, sendresponse_open, sendresponse_read, sendresponse_write,
}
use dsproj.Registry.{Lists, datanode_insert}

-- What a message asks for, with the arguments of the call that answers it.
pub data Order : Type 0 where
  getattr readdir unlink rmdir statfs : Bytes → Order
  access open_path truncate mkdir chmod : Bytes → ℤ → Order
  read mknod : Bytes → ℤ → ℤ → Order
  write : Bytes → ℤ → ℤ → Option Bytes → Order
  rename : Bytes → Option Bytes → Order
  register shut_down unknown : Order
  console : Bytes → Order

-- `v = 0; ptr = strtok(NULL, ","); if (ptr != NULL) v = atoi(ptr);`
abbrev pub number_or_zero : Bytes → ℤ × Bytes
number_or_zero s = elim (strtok comma s) [
  | none ↦ (pos 0, [])
  | some (tok, rest) ↦ (atoi tok, rest)
]

abbrev pub token_or_null : Bytes → Option Bytes
token_or_null s = elim (strtok comma s) [ none ↦ none | some (tok, rest) ↦ some tok ]

-- The commands with a path and a number that must be there, or one that is 0 if it is not.
abbrev pub with_number : (Bytes → ℤ → Order) → Bytes → Bytes → Option Order
with_number order path s = do (v, _) ← number s; some (order path v)

abbrev pub with_two : (Bytes → ℤ → ℤ → Order) → Bytes → Bytes → Option Order
with_two order path s =
    let (v, s1) = number_or_zero s in let (w, s2) = number_or_zero s1 in some (order path v w)

abbrev pub with_data : Bytes → Bytes → Option Order
with_data path s =
    let (v, s1) = number_or_zero s in
    let (w, s2) = number_or_zero s1 in some (write path v w (token_or_null s2))

-- The chain of tests on a command that takes a path.
unfoldable pub path_order : Bytes → Bytes → Bytes → Option Order
path_order cmd path s =
    if same cmd (codes "getattr")
    then some (getattr path)
    else if same cmd (codes "access")
    then with_number access path s
    else if same cmd (codes "readdir")
    then some (readdir path)
    else if same cmd (codes "open")
    then with_number open_path path s
    else if same cmd (codes "read")
    then with_two read path s
    else if same cmd (codes "write")
    then with_data path s
    else if same cmd (codes "mkdir")
    then with_number mkdir path s
    else if same cmd (codes "mknod")
    then with_two mknod path s
    else if same cmd (codes "truncate")
    then some (truncate path (number_or_zero s).0)
    else if same cmd (codes "unlink")
    then some (unlink path)
    else if same cmd (codes "rmdir")
    then some (rmdir path)
    else if same cmd (codes "statfs")
    then some (statfs path)
    else if same cmd (codes "chmod")
    then with_number chmod path s
    else if same cmd (codes "rename")
    then some (rename path (token_or_null s))
    else some unknown

unfoldable pub takes_path : Bytes → List Bytes → Bool
takes_path cmd [] = false
takes_path cmd (c ∷ cs) = if same cmd c then true else takes_path cmd cs

abbrev pub path_commands : List Bytes
path_commands =
    codes "getattr"
    ∷ codes "access"
    ∷ codes "readdir"
    ∷ codes "open"
    ∷ codes "read"
    ∷ codes "write"
    ∷ codes "mkdir"
    ∷ codes "mknod"
    ∷ codes "truncate"
    ∷ codes "unlink"
    ∷ codes "rmdir"
    ∷ codes "statfs"
    ∷ codes "chmod"
    ∷ codes "rename"
    ∷ []

-- The command and what stands behind it. A path that is missing would be NULL for the system call,
-- which Posix does not have: such a message is `none`. The texts of the commands differ, so their
-- order in the chain does not matter.
unfoldable pub read_order : Bytes → Bytes → Option Order
unfolding takes_path path_order
read_order cmd s =
    if takes_path cmd path_commands
    then (strtok comma s >>= λ t. path_order cmd t.0 t.1)
    else if same cmd (codes "datanode")
    then some register
    else if same cmd (codes "shutdown")
    then some shut_down
    else if same cmd (codes "dn_command")
    then (strtok comma s >>= λ t. some (console t.0))
    else some unknown

-- "command,host,command,…": the first part is skipped, and the host is copied to char[100].
unfoldable pub read_message : Bytes → Option (Bytes × Order)
unfolding read_order
read_message msg = do
  buf ← within 1000 (c_str (take 1000 msg))
  (_, s) ← strtok comma buf
  (tmphost, s) ← strtok comma s
  host ← within 100 tmphost
  (cmd, s) ← strtok comma s
  order ← read_order cmd s
  some (host, order)

-- The end of a turn of the loop: whether it goes on, what was sent, the lists.
pub record Turn : Type 0 where
  pub running : Bool
  pub reply : Option Sent
  pub lists : Lists

module _ {S : Type 0} (os : Posix S) (datanode_namenode : Bytes) where
  -- The loop goes on whether a reply could be sent or not.
  abbrev replied : Lists → Option (Sent × S) → Option (Turn × S)
  replied lists m = do
    (sending, s) ← m
    some (record { running = true; reply = some sending; lists = lists }, s)

  abbrev silent : Bool → Lists → S → Option (Turn × S)
  silent running lists s = some (record { running = running; reply = none; lists = lists }, s)

  -- A console command other than "shutdown" makes resolvemonitorcommand end without a value, which is
  -- then used.
  unfoldable pub serve : Bytes → Order → Lists → S → Option (Turn × S)
  serve host (getattr path) lists s = replied lists (sendresponse_getattr os host path s)
  serve host (readdir path) lists s = replied lists (sendresponse_readdir os host path s)
  serve host (unlink path) lists s = replied lists (sendresponse_unlink os host path s)
  serve host (rmdir path) lists s = replied lists (sendresponse_rmdir os host path s)
  serve host (statfs path) lists s = replied lists (sendresponse_statfs os host path s)
  serve host (access path mask) lists s = replied lists (sendresponse_access os host path mask s)
  serve host (open_path path flags) lists s = replied lists (sendresponse_open os host path flags s)
  serve host (truncate path size) lists s =
      replied lists (sendresponse_truncate os host path size s)
  serve host (mkdir path mode) lists s = replied lists (sendresponse_mkdir os host path mode s)
  serve host (chmod path mode) lists s = replied lists (sendresponse_chmod os host path mode s)
  serve host (read path size offset) lists s =
      replied lists (sendresponse_read os host path size offset s)
  serve host (mknod path mode rdev) lists s =
      replied lists (sendresponse_mknod os host path mode rdev s)
  serve host (write path size offset buf) lists s =
      replied lists (sendresponse_write os host path size offset buf s)
  serve host (rename path dpath) lists s = replied lists (sendresponse_rename os host path dpath s)
  serve host register lists s = elim (hostname_to_ip os host) [
    | not_present ↦ silent false lists s
    | not_written ↦ none
    | found ip ↦ (datanode_insert host ip (pos 1) lists >>= λ lists'. silent true lists' s)
  ]
  serve host shut_down lists s =
      silent (if same host datanode_namenode then false else true) lists s
  serve host unknown lists s = silent true lists s
  serve host (console intcmd) lists s =
      if same intcmd (codes "shutdown") then silent false lists s else none

  -- One turn of the loop of receivecommand_datanode.
  unfoldable pub receivecommand_datanode : Bytes → Lists → S → Option (Turn × S)
  unfolding read_message serve
  receivecommand_datanode msg lists s = do
    (host, order) ← read_message msg
    serve host order lists s
