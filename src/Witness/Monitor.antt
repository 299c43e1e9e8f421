-- ===== src/Witness/Monitor.antt =====
-- Concrete commands of the operator.
use dsproj.Common.{ℕ, zero, suc, pos, true, some, none, List, [], ◌≡◌, refl, arith, replicate, All}
use dsproj.Text.{Bytes, codes, snprintf10, atoi}
use dsproj.Posix.{Datagram, hostname_to_ip, sent}
use dsproj.Registry.{Datanode}
use dsproj.Monitor.{
  monitor_port, dnlist_text, shows_datanodes, shows_replication, asked, Service, console,
  monitorcommand_namenode, receivecommand_monitor,
}
use dsproj.Monitor.Exchange.{console-replica}
use dsproj.Monitor.Listing.{IsVisibleNode, console-dnlist, console-dnlist_overflow}
use dsproj.Dispatch.Request.{all_differ, all_differ-Lacks}
use dsproj.Witness.{plain, node_name}
use dsproj.Witness.Route.{lists, a_node}

abbrev ip : Bytes
ip = codes "10.0.0.1"

abbrev console_host : Bytes
console_host = codes "m1"

abbrev service : Service
service = record { replication_count = pos 0; lists = lists }

console-replica_example :
    (d ack : Datagram) × (console plain node_name (codes "replica") (codes "5") 0
      ≡ some (asked (sent d), 0))
    × (d.to_ip ≡ ip)
    × (d.to_port ≡ monitor_port)
    × (monitorcommand_namenode plain console_host d.payload service 1
        ≡ some (some (sent ack), record { replication_count = pos 5; lists = lists }, 1))
    × (ack.to_ip ≡ ip)
    × (ack.to_port ≡ monitor_port)
    × (receivecommand_monitor plain node_name node_name ack.payload 2
        ≡ some (record { running = true; display = shows_replication (pos 5) }, 2))
unfolding hostname_to_ip atoi
console-replica_example =
    console-replica plain plain node_name node_name console_host node_name ip ip (codes "5") service
      0 2 1 refl refl (omega arith) (omega arith)

visible :
    (dn : Datanode)
    → all_differ 0 dn.node ≡ true
    → all_differ b' ' dn.node ≡ true
    → all_differ 0 dn.ip ≡ true
    → all_differ b' ' dn.ip ≡ true
    → IsVisibleNode dn
visible dn a b c d = (
  (all_differ-Lacks 0 dn.node a, all_differ-Lacks b' ' dn.node b),
  (all_differ-Lacks 0 dn.ip c, all_differ-Lacks b' ' dn.ip d),
)

console-dnlist_example :
    (d answer : Datagram) × (console plain node_name (codes "dn") (codes "list") 0
      ≡ some (asked (sent d), 0))
    × (d.to_ip ≡ ip)
    × (d.to_port ≡ monitor_port)
    × (monitorcommand_namenode plain console_host d.payload service 1
        ≡ some (some (sent answer), service, 1))
    × (answer.to_ip ≡ ip)
    × (answer.to_port ≡ monitor_port)
    × (receivecommand_monitor plain node_name node_name answer.payload 2
        ≡ some (record { running = true; display = shows_datanodes (codes "n1,10.0.0.1,1,") }, 2))
unfolding hostname_to_ip snprintf10
console-dnlist_example =
    console-dnlist plain plain node_name node_name console_host node_name ip ip service a_node [] 0
      2 1 refl refl refl (visible a_node refl refl refl refl, tt) (omega arith)

abbrev long_node : Datanode
long_node = record { node = replicate 99 b'n'; ip = ip; alive = pos 1 }

abbrev crowd : List Datanode
crowd = replicate 9 long_node

abbrev crowded : Service
crowded = record { replication_count = pos 0; lists = record lists { datanodes = crowd } }

crowd-IsVisible : (n : ℕ) → All IsVisibleNode (replicate n long_node)
crowd-IsVisible zero = tt
crowd-IsVisible (suc n) = (visible long_node refl refl refl refl, crowd-IsVisible n)

console-dnlist_overflow_example :
    (answer : Datagram) × (monitorcommand_namenode plain console_host dnlist_text crowded 1
      ≡ some (some (sent answer), crowded, 1))
    × (receivecommand_monitor plain node_name node_name answer.payload 0 ≡ none)
unfolding hostname_to_ip snprintf10
console-dnlist_overflow_example =
    console-dnlist_overflow plain plain node_name console_host node_name ip crowded 0 1 refl
      (crowd-IsVisible 9) (omega arith) (omega arith)
