-- ===== src/Monitor.antt =====
-- The monitor of the system's operator (monitor.c, monitor_sockets.c) and the namenode's side of it
-- (monitorcommand_namenode and its answers, namenode.c; datanode_sendlist, list.c).
-- A result `none` is undefined behaviour: a text past its array, or NULL where a text is printed,
-- compared or converted.
pub mod Exchange
pub mod Listing
use dsproj.Common.{
  ℕ, ℤ, pos, Bool, true, false, if◌then◌else◌, Option, none, some, List, [], ◌∷◌, ◌++◌, take, ◌>>=◌,
  ◌>>◌,
}
use dsproj.Text.{Bytes, codes, comma, c_str, same, strtok, atoi, snprintf10, within, number}
use dsproj.Posix.{Posix, HostIp, not_present, not_written, found, hostname_to_ip, Sent, send_to}
use dsproj.Registry.{Datanode, Lists}
use dsproj.Replica.{fexist}

abbrev pub monitor_port : ℕ
monitor_port = 8020

abbrev pub dnlist_text : Bytes
dnlist_text = codes "dnlist"

abbrev pub sendrep_text : Bytes
sendrep_text = codes "senrep"

-- What a turn of the monitor shows to the operator: nothing, whether a file exists (0 if it does), a
-- path, a text of results, the datanodes, or the number of replicas.
pub data Display : Type 0 where
  nothing : Display
  shows_file : Bytes → ℤ → Display
  shows_path shows_results shows_datanodes : Bytes → Display
  shows_replication : ℤ → Display

pub record MonitorTurn : Type 0 where
  pub running : Bool
  pub display : Display

-- What a line of the console does.
pub data Console : Type 0 where
  helped quit invalid : Console
  asked : Sent → Console

-- The globals of the namenode that its monitor thread uses.
pub record Service : Type 0 where
  pub replication_count : ℤ
  pub lists : Lists

-- The text of datanode_sendlist: three fields for each datanode.
abbrev pub sendlist_text : List Datanode → Bytes
sendlist_text [] = []
sendlist_text (dn ∷ dns) =
    dn.node ++ (comma ∷ (dn.ip ++ (comma ∷ (snprintf10 dn.alive ++ (comma ∷ sendlist_text dns)))))

-- The buffer has 10000 bytes, and the walk leaves the global `dlist` at NULL.
unfoldable pub datanode_sendlist : Lists → Option (Bytes × Lists)
datanode_sendlist st = do
  dn_buf ← within 10000 (sendlist_text st.datanodes)
  some (dn_buf, record st { dlist = none })

module _ {S : Type 0} (os : Posix S) where
  -- dnlist and replica of monitor.c; their texts fit cmd[100].
  dnlist : Bytes → S → Option (Sent × S)
  dnlist namenode = send_to os namenode monitor_port λ s. some (dnlist_text, s)

  pub replica : Bytes → ℤ → S → Option (Sent × S)
  replica namenode count =
      send_to os namenode monitor_port λ s. some (sendrep_text ++ (comma ∷ snprintf10 count), s)

  -- One turn of the loop of main: scanf stores the two words in char[20] each.
  pub console : Bytes → Bytes → Bytes → S → Option (Console × S)
  unfolding dnlist replica
  console namenode first second s = within 20 first >>= λ first. within 20 second >>= λ second.
      (let listed : Option (Console × S) =
          (dnlist namenode s >>= λ (outcome, s1). some (asked outcome, s1)) in
        let counted : Option (Console × S) =
          (replica namenode (atoi second) s >>= λ (outcome, s1). some (asked outcome, s1)) in
        if (if same first (codes "help") then same second (codes "me") else false)
        then some (helped, s)
        else if (if same first (codes "dn") then same second (codes "list") else false)
        then listed
        else if (if same first (codes "shut") then same second (codes "down") else false)
        then some (quit, s)
        else if same first (codes "replica")
        then counted
        else some (invalid, s))

  -- senddnlist of namenode.c: cmd[10000].
  pub senddnlist : Bytes → Bytes → S → Option (Sent × S)
  senddnlist node dnbuf =
      send_to os node monitor_port
        λ s. (within 10000 (dnlist_text ++ (comma ∷ dnbuf)) >>= λ text. some (text, s))

  -- sendAckRep: the text fits cmd[20].
  unfoldable pub send_ack_rep : Bytes → ℤ → S → Option (Sent × S)
  send_ack_rep node replication_count =
      send_to os node monitor_port
        λ s. some (sendrep_text ++ (comma ∷ snprintf10 replication_count), s)

  -- One turn of monitorcommand_namenode on a message from `host`. Each of the two tests is made, but
  -- the texts differ.
  unfoldable pub monitorcommand_namenode :
      Bytes → Bytes → Service → S → Option (Option Sent × Service × S)
  unfolding datanode_sendlist senddnlist send_ack_rep
  monitorcommand_namenode host msg sv s = within 1000 (c_str (take 1000 msg)) >>= λ recvbuf.
      strtok comma recvbuf >>= λ (cmd, rest).
      (let listed : Option (Option Sent × Service × S) =
          (datanode_sendlist sv.lists >>= λ (dnbuf, lists).
          senddnlist host dnbuf s >>= λ (outcome, s1).
          some (some outcome, record sv { lists = lists }, s1)) in
        let counted : Option (Option Sent × Service × S) =
          (number rest >>= λ (i_temp, _). send_ack_rep host i_temp s >>= λ (outcome, s1).
          some (some outcome, record sv { replication_count = i_temp }, s1)) in
        if same cmd dnlist_text
        then listed
        else if same cmd sendrep_text
        then counted
        else some (none, sv, s))

  -- The command is a pointer that is passed as a char, and then used as a pointer: only a node with no
  -- address ends this without undefined behaviour.
  sendmonitorcommand_datanode : Bytes → Option (Unit {0})
  sendmonitorcommand_datanode node = elim (hostname_to_ip os node) [
    | not_present ↦ some tt
    | not_written ↦ none
    | found ip ↦ none
  ]

  -- One turn of receivecommand_monitor on a message from `host`. The texts of the commands differ, so
  -- their order in the chain of tests does not matter.
  pub receivecommand_monitor : Bytes → Bytes → Bytes → S → Option (MonitorTurn × S)
  unfolding sendmonitorcommand_datanode
  receivecommand_monitor monitor_namenode host msg s =
      within 1000 (c_str (take 1000 msg)) >>= λ buf1. strtok comma buf1 >>= λ (cmd, rest).
      (let goes_on : Display → S → Option (MonitorTurn × S) =
          λ display s1. some (record { running = true; display = display }, s1) in
        let exists : Option (MonitorTurn × S) =
          (strtok comma rest >>= λ (path, _).
          (let (fret, s1) = fexist os path s in goes_on (shows_file path fret) s1)) in
        let read : Option (MonitorTurn × S) =
          (strtok comma rest >>= λ (path, _). goes_on (shows_path path) s) in
        let ordered : Option (MonitorTurn × S) =
          (strtok comma rest >>= λ (node, _).
          sendmonitorcommand_datanode node >> goes_on nothing s) in
        let results : Option (MonitorTurn × S) =
          (strtok comma rest >>= λ (ptr, _). goes_on (shows_results ptr) s) in
        let listed : Option (MonitorTurn × S) =
          (strtok b' ' rest >>= λ (ptr, _). goes_on (shows_datanodes ptr) s) in
        let counted : Option (MonitorTurn × S) =
          (number rest >>= λ (i_temp, _). goes_on (shows_replication i_temp) s) in
        if same cmd (codes "replica_fileexists")
        then exists
        else if same cmd (codes "r_read")
        then read
        else if same cmd (codes "shutdown")
        then some (
          record {
            running = if same host monitor_namenode then false else true;
            display = nothing;
          },
          s,
        )
        else if same cmd (codes "dn_command")
        then ordered
        else if same cmd (codes "disp_results")
        then results
        else if same cmd dnlist_text
        then listed
        else if same cmd sendrep_text
        then counted
        else goes_on nothing s)
