-- ===== src/Startup.antt =====
-- How the processes start: main of datanode.c and of monitor.c up to their loops, init of namenode.c,
-- and parse_arguments and main of client.c up to fuse_main. The threads are taken to start. A result
-- `none` is undefined behaviour.
pub mod Contact
use dsproj.Common.{
  ℕ, suc, ◌+◌, pos, Bool, true, false, if◌then◌else◌, ltb, Option, none, some, List, [], ◌∷◌, ◌++◌,
  length, ◌>>=◌, ◌>>◌, defined_if,
}
use dsproj.Text.{Bytes, codes, within}
use dsproj.Wait.{wait_flag}
use dsproj.Posix.{Posix, Sent, failed, sent, Datagram}
use dsproj.Client.{sendcommand}
use dsproj.Registry.{datanode_dir, seen_from}
use dsproj.Registry.Config.{Start, exited, started, initdatanodelist}
use dsproj.Ping.{sendping}
use dsproj.Tree.{Node, Tree, ninitialize}

abbrev pub datanode_text : Bytes
datanode_text = codes "datanode"

abbrev pub monitor_text : Bytes
monitor_text = codes "monitor"

abbrev pub datanode_path : Bytes
datanode_path = codes "/tmp/CS545"

-- How a start ends: by exit or by `return -1`, or with the ping, the message to the namenode and the
-- namenode's name in the global array.
pub data Launch : Type 0 where
  gave_up : Launch
  launched : Bytes → Datagram → Datagram → Launch

-- The test of the waiting loop from which on an answer to the ping that was sent is seen, if any.
abbrev pub Echo : Type 0
Echo = Datagram → Option ℕ

module _ {S : Type 0} (os : Posix S) where
  -- Behind a ping that was sent.
  report : Bytes → Bytes → Datagram → S → Option (Launch × S)
  report namenode cmd ping s = sendcommand os namenode [] cmd s >>= λ (outcome, s1). elim outcome [
    | failed ↦ some (gave_up, s1)
    | sent d ↦ some (launched namenode ping d, s1)
  ]

  after_ping : Echo → Bytes → Bytes → Sent → S → Option (Launch × S)
  unfolding report
  after_ping echo namenode cmd failed s = some (gave_up, s)
  after_ping echo namenode cmd (sent ping) s =
      let reported = report namenode cmd ping s in
      if wait_flag (seen_from (echo ping)) then reported else some (gave_up, s)

  -- What main of datanode.c and main of monitor.c have in common: the name of the namenode goes to an
  -- array of 100 bytes, the namenode is pinged, the answer awaited, and the message sent.
  contact : Echo → Bytes → Bytes → S → Option (Launch × S)
  unfolding after_ping
  contact echo argv1 cmd s = within 100 argv1 >>= λ namenode.
      sendping os namenode s >>= λ (pingsuccess, outcome, s1).
      after_ping echo namenode cmd outcome s1

  -- Behind the message the results of mkdir and chmod are only printed.
  pub make_folders : S → S
  make_folders s =
      let (c1, s1) = os.mkdir datanode_path (pos 448) s in
      let (c2, s2) = os.mkdir datanode_dir (pos 448) s1 in
      let (c3, s3) = os.chmod datanode_dir (pos 511) s2 in s3

  behind_contact : Launch → S → Launch × S
  unfolding make_folders
  behind_contact gave_up s = (gave_up, s)
  behind_contact (launched name ping d) s = (launched name ping d, make_folders s)

  -- main of datanode.c, up to the wait for its threads; argv[1] may be missing.
  pub datanode_main : Echo → Option Bytes → S → Option (Launch × S)
  unfolding contact behind_contact
  datanode_main echo none s = some (gave_up, s)
  datanode_main echo (some argv1) s =
      contact echo argv1 datanode_text s >>= λ (launch, s1). some (behind_contact launch s1)

  -- main of monitor.c, up to its console.
  unfoldable monitor_main : Echo → Option Bytes → S → Option (Launch × S)
  unfolding contact
  monitor_main echo none s = some (gave_up, s)
  monitor_main echo (some argv1) s = contact echo argv1 monitor_text s

  -- init of namenode.c: the file of the datanodes is loaded, and the tree of dd.c set up.
  unfoldable init : Option Bytes → ℕ → Bytes → Node → Tree → S → Option (Start × Tree × S)
  init user block text new1 t s = initdatanodelist os user block text s >>= λ (start, s1).
      elim start [
        | exited ↦ some (exited, t, s1)
        | started lists ↦ some (started lists, ninitialize new1 t, s1)
      ]

  -- char *fuse_argv[2] with `fuse_argc` places filled: one more is written behind them.
  abbrev pub add_fuse_arg : List Bytes → Bytes → Option (List Bytes)
  add_fuse_arg fuse_argv new_arg =
      defined_if (ltb (length fuse_argv) 2) >> some (fuse_argv ++ new_arg ∷ [])

  -- parse_arguments of client.c: the arguments for FUSE, or `none` inside for -1. (Its first line
  -- prints an array that is not set yet; the output is not modelled.)
  parse_arguments : Bytes → Bytes → Bytes → S → Option (Option (List Bytes) × S)
  parse_arguments argv0 argv1 argv2 s = sendping os argv1 s >>= λ (pingsuccess, outcome, s1).
      elim outcome [
        | failed ↦ some (none, s1)
        | sent ping ↦ add_fuse_arg (argv0 ∷ argv2 ∷ []) (codes "-d") >>= λ fuse_argv.
            some (some fuse_argv, s1)
      ]
