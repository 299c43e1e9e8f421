-- ===== src/Network.antt =====
-- The three programs together: what a command of a client (client.c) brings back when its datagram
-- reaches the namenode, the namenode's reaches a datanode, and the datanode's reaches the client.
pub mod Delivery
pub mod Reading
pub mod Writing
use dsproj.Common.{ℕ, ◌==◌, ◌&&◌, if◌then◌else◌, Option, none, some, ◌>>=◌}
use dsproj.Text.{Bytes, same}
use dsproj.Posix.{Posix, Datagram, Sent, failed, sent, command_port, response_port}
use dsproj.Client.{Answer}
use dsproj.Registry.{Lists, Pong}
use dsproj.Dispatch.{Turn, receivecommand_datanode}
use dsproj.Namenode.{receivecommand_namenode}

-- The namenode and one datanode in the states in which they take a message, the client's host, and
-- the test of the waiting loop at which the reply is there.
pub record Net (N D : Type 0) : Type 0 where
  pub nn_os : Posix N
  pub nn_ip : Bytes
  pub pong : Pong
  pub lists : Lists
  pub nn_state : N
  pub dn_os : Posix D
  pub dn_ip : Bytes
  pub datanode_namenode : Bytes
  pub dn_lists : Lists
  pub dn_state : D
  pub client_host : Bytes
  pub client_ip : Bytes
  pub first : ℕ

-- A datagram reaches the node of its address, at its port.
abbrev pub deliver : Bytes → ℕ → Option Sent → Option Bytes
deliver ip port none = none
deliver ip port (some failed) = none
deliver ip port (some (sent d)) =
    if same d.to_ip ip && (d.to_port == port) then some d.payload else none

unfoldable pub network : {N D : Type 0} → Net N D → Answer
network net d = do
  request ← deliver net.nn_ip command_port (some (sent d))
  (turn, _) ←
      receivecommand_namenode net.nn_os net.pong net.client_host request net.lists net.nn_state
  order ← deliver net.dn_ip command_port turn.reply
  (turn2, _) ←
      receivecommand_datanode net.dn_os net.datanode_namenode order net.dn_lists net.dn_state
  response ← deliver net.client_ip response_port turn2.reply
  some (net.first, response)
