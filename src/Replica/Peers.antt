-- ===== src/Replica/Peers.antt =====
-- Two datanodes as the namenode meets them when it copies a file: receivecommand_replica
-- (replica_sockets.c) on each.
use dsproj.Common.{ℕ, ◌≡◌, ◌≢◌, refl, Option, none, some, if◌then◌else◌, ◌&&◌, ◌==◌}
use dsproj.Text.{Bytes, same}
use dsproj.Posix.{Posix, Sent, sent, failed}
use dsproj.Registry.Insert.{same_refl}
use dsproj.Tree.Search.{same-neq}
use dsproj.Replica.{replication_port, Stdio, receivecommand_replica, Nodes}
use dsproj.Replica.Turns.{to_node}

-- A datanode as the namenode meets it: its calls, its address, and the name it knows the namenode by.
pub record Peer (S F : Type 0) : Type 0 where
  pub os : Posix S
  pub io : Stdio S F
  pub ip : Bytes
  pub host : Bytes

-- The reply that reaches the namenode.
abbrev pub heard : Bytes → ℕ → Option Sent → Option (ℕ × Bytes)
heard my_ip first none = none
heard my_ip first (some failed) = none
heard my_ip first (some (sent d)) =
    if same d.to_ip my_ip && (d.to_port == replication_port) then some (first, d.payload) else none

abbrev pub after_turn :
    {S : Type 0} → Bytes → ℕ → S → Option (Option Sent × S) → Option (ℕ × Bytes) × S
after_turn my_ip first s none = (none, s)
after_turn my_ip first s (some (reply, s')) = (heard my_ip first reply, s')

unfoldable pub turn_of : {S F : Type 0} → Peer S F → Bytes → ℕ → Bytes → S → Option (ℕ × Bytes) × S
turn_of peer my_ip first msg s =
    after_turn my_ip first s (receivecommand_replica peer.os peer.io peer.host msg s)

-- The two datanodes; a datagram goes to the one with its address.
unfoldable pub two_nodes : {P Q F G : Type 0} → Peer P F → Peer Q G → Bytes → ℕ → Nodes (P × Q)
two_nodes prim rep my_ip first d (p, q) =
    if same d.to_ip prim.ip
    then (let (answer, p') = turn_of prim my_ip first d.payload p in (answer, (p', q)))
    else if same d.to_ip rep.ip
    then (let (answer, q') = turn_of rep my_ip first d.payload q in (answer, (p, q')))
    else (none, (p, q))

turn_of-sent :
    {S F : Type 0} (peer : Peer S F) (my_ip : Bytes) (first : ℕ) (msg text : Bytes) (s : S) {s' : S}
    → receivecommand_replica peer.os peer.io peer.host msg s
      ≡ some (some (sent (to_node my_ip text)), s')
    → turn_of peer my_ip first msg s ≡ (some (first, text), s')
unfolding turn_of
turn_of-sent peer my_ip first msg text s e = rw (e, same_refl my_ip) refl

module _ {P Q F G : Type 0} (prim : Peer P F) (rep : Peer Q G) (my_ip : Bytes) (first : ℕ) (p : P)
    (q : Q) (msg text : Bytes) where
  pub asks-prim :
      {p' : P}
      → receivecommand_replica prim.os prim.io prim.host msg p
        ≡ some (some (sent (to_node my_ip text)), p')
      → two_nodes prim rep my_ip first (to_node prim.ip msg) (p, q) ≡ (some (first, text), (p', q))
  unfolding two_nodes
  asks-prim e = rw (same_refl prim.ip, turn_of-sent prim my_ip first msg text p e) refl

  pub asks-rep :
      {q' : Q}
      → rep.ip ≢ prim.ip
      → receivecommand_replica rep.os rep.io rep.host msg q
        ≡ some (some (sent (to_node my_ip text)), q')
      → two_nodes prim rep my_ip first (to_node rep.ip msg) (p, q) ≡ (some (first, text), (p, q'))
  unfolding two_nodes
  asks-rep ne e =
      rw (same-neq rep.ip prim.ip ne, same_refl rep.ip, turn_of-sent rep my_ip first msg text q e)
        refl
