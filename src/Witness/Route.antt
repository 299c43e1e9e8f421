-- ===== src/Witness/Route.antt =====
-- Concrete messages to the namenode.
use dsproj.Common.{pos, true, some, none, [], ◌∷◌, ◌≡◌, refl, arith}
use dsproj.Text.{Bytes, codes, comma, snprintf10}
use dsproj.Text.Number.{IsField}
use dsproj.Posix.{Datagram, hostname_to_ip, found, sent}
use dsproj.Registry.{Datanode, Slot, Filelist, Lists, Pong, free_slot, check_nodealive}
use dsproj.Wait.{wait_flag}
use dsproj.Registry.Invariant.{IsWellFormed}
use dsproj.Registry.Answer.{file_replica}
use dsproj.Reply.Files.{sendresponse_read, read_file}
use dsproj.Dispatch.Answered.{answered}
use dsproj.Dispatch.{Order, Turn, serve, receivecommand_datanode}
use dsproj.Dispatch.Request.{Request, IsPlainRequest, request_text, all_differ-Lacks}
use dsproj.Namenode.{receivecommand_namenode}
use dsproj.Namenode.Route.{request_served}
use dsproj.Witness.{plain, node_name, file, stored}

abbrev pub a_node : Datanode
a_node = record { node = node_name; ip = codes "10.0.0.1"; alive = pos 1 }

abbrev pub a_replica : Slot
a_replica = record { rep = 1; replica = node_name; d_ino = pos 0; d_type = pos 0 }

abbrev pub a_file : Filelist
a_file = record { name = stored; slots = a_replica ∷ free_slot ∷ [] }

abbrev pub lists : Lists
lists = record { datanodes = a_node ∷ []; dlist = none; files = a_file ∷ []; config = [] }

abbrev pub all_answer : Pong
all_answer = λ name. some 5

abbrev pub client_host : Bytes
client_host = codes "c1"

abbrev a_read : Request
a_read = Request.ask_read file (pos 3) (pos 0)

abbrev an_open : Request
an_open = Request.ask_open file (pos 0)

pub lists-IsWellFormed : IsWellFormed lists.datanodes lists.files
lists-IsWellFormed = (((λ _. (0, refl)), ((λ h. absurd (h refl)), tt)), tt)

pub client_host-IsField : IsField client_host
client_host-IsField = record {
  no_comma = all_differ-Lacks comma client_host refl;
  no_nul = all_differ-Lacks 0 client_host refl;
  not_empty = λ e. cc;
}

pub resolved : hostname_to_ip plain node_name ≡ found (codes "10.0.0.1")
unfolding hostname_to_ip
resolved = refl

pub answers : file_replica all_answer a_file.slots ≡ some node_name
unfolding check_nodealive wait_flag
answers = refl

a_read-IsPlainRequest : IsPlainRequest a_read
a_read-IsPlainRequest = (all_differ-Lacks comma file refl, omega arith, omega arith)

request_served_example :
    (turn : Turn) × (d : Datagram) × (receivecommand_namenode plain all_answer client_host
        (codes "read,/tmp/CS545/datanode/f,3,0")
        lists
        0
      ≡ some (turn, 0))
    × (turn.reply ≡ some (sent d))
    × (d.to_ip ≡ codes "10.0.0.1")
    × (receivecommand_datanode plain (codes "nn") d.payload lists 0
        ≡ serve plain (codes "nn") client_host (Order.read stored (pos 3) (pos 0)) lists 0)
unfolding snprintf10 serve answered sendresponse_read read_file
request_served_example =
    request_served plain all_answer client_host lists 0 a_read 0 a_file node_name
      a_read-IsPlainRequest (all_differ-Lacks 0 (request_text a_read) refl) (omega arith)
      lists-IsWellFormed refl refl answers resolved plain (codes "nn") lists 0 client_host-IsField
      (omega arith) refl

-- What the namenode leaves behind the open.
abbrev opened : Turn
opened = record {
  running = true;
  reply = some (
      sent (record {
        to_ip = codes "10.0.0.1";
        to_port = 8012;
        payload = codes "open,c1,open,/tmp/CS545/datanode/f,0";
      }));
  lists = record lists {
    dlist = some 0;
    files = record { name = stored; slots = a_replica ∷ a_replica ∷ [] } ∷ [];
  };
}
