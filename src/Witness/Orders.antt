-- ===== src/Witness/Orders.antt =====
-- Concrete messages to a datanode.
use dsproj.Common.{pos, none, [], ◌≡◌, refl, arith}
use dsproj.Text.{codes, comma, snprintf10}
use dsproj.Text.Number.{IsField}
use dsproj.Registry.{Lists}
use dsproj.Dispatch.{Order, serve, receivecommand_datanode}
use dsproj.Dispatch.Request.{Request, all_differ-Lacks}
use dsproj.Reply.Files.{sendresponse_read, read_file}
use dsproj.Dispatch.Answered.{answered}
use dsproj.Dispatch.Orders.{receivecommand_datanode-meant, receivecommand_datanode_truncate}
use dsproj.Witness.{plain, node_name, file, stored}

abbrev no_lists : Lists
no_lists = record { datanodes = []; dlist = none; files = []; config = [] }

node_name-IsField : IsField node_name
node_name-IsField = record {
  no_comma = all_differ-Lacks comma node_name refl;
  no_nul = all_differ-Lacks 0 node_name refl;
  not_empty = λ e. cc;
}

receivecommand_datanode-meant_example :
    receivecommand_datanode plain
      (codes "nn")
      (codes "read,n1,read,/tmp/CS545/datanode/f,3,0")
      no_lists
      0
    ≡ serve plain (codes "nn") node_name (Order.read stored (pos 3) (pos 0)) no_lists 0
unfolding snprintf10 serve answered sendresponse_read read_file
receivecommand_datanode-meant_example =
    receivecommand_datanode-meant plain (codes "nn") node_name no_lists 0 node_name-IsField
      (omega arith) (Request.ask_read file (pos 3) (pos 0))
      (all_differ-Lacks comma file refl, omega arith, omega arith)
      (all_differ-Lacks 0 (codes "/tmp/CS545/datanode/f,3,0") refl) (omega arith)

receivecommand_datanode_truncate_example :
    receivecommand_datanode plain
      (codes "nn")
      (codes "truncate,n1,truncate,/tmp/CS545/datanode/f12,")
      no_lists
      0
    ≡ serve plain
        (codes "nn")
        node_name
        (Order.truncate (codes "/tmp/CS545/datanode/f12") (pos 0))
        no_lists
        0
unfolding snprintf10
receivecommand_datanode_truncate_example =
    receivecommand_datanode_truncate plain (codes "nn") node_name no_lists 0 node_name-IsField
      (omega arith) file (pos 12) (all_differ-Lacks comma file refl)
      (all_differ-Lacks 0 (codes "/tmp/CS545/datanode/f12,") refl) (omega arith)
