-- ===== src/Witness/Network.antt =====
-- Concrete operations over the network of the three programs.
use dsproj.Common.{ℕ, pos, some, [], ◌≡◌, refl, arith}
use dsproj.Text.{codes, comma, snprintf10}
use dsproj.Posix.{hostname_to_ip, Datagram, sent}
use dsproj.Dispatch.{Turn, receivecommand_datanode}
use dsproj.Dispatch.Request.{all_differ-Lacks}
use dsproj.Namenode.{receivecommand_namenode}
use dsproj.Client.Attr.{my_getattr}
use dsproj.Client.Status.{xmp_unlink}
use dsproj.Client.Files.{xmp_read}
use dsproj.Network.{Net, network}
use dsproj.Network.Reading.{IsServing, my_getattr-network, xmp_unlink-network, xmp_read-network}
use dsproj.Witness.{a_stat, plain, node_name, file, stored}
use dsproj.Witness.Route.{
  lists, a_file, all_answer, client_host, lists-IsWellFormed, client_host-IsField, resolved,
  answers,
}

abbrev three : Net ℕ ℕ
three = record {
  nn_os = plain;
  nn_ip = codes "10.0.0.1";
  pong = all_answer;
  lists = lists;
  nn_state = 0;
  dn_os = plain;
  dn_ip = codes "10.0.0.1";
  datanode_namenode = codes "nn";
  dn_lists = lists;
  dn_state = 0;
  client_host = client_host;
  client_ip = codes "10.0.0.1";
  first = 5;
}

three-IsServing : IsServing plain three node_name file
unfolding hostname_to_ip
three-IsServing = record {
  place = 0;
  file = a_file;
  dn = node_name;
  named = refl;
  in_time = omega arith;
  formed = lists-IsWellFormed;
  listed = refl;
  at = refl;
  answers = answers;
  resolved = resolved;
  back = refl;
  host_field = client_host-IsField;
  host_fits = omega arith;
}

my_getattr-network_example :
    my_getattr plain node_name (network three) file 0 ≡ some (pos 0, some a_stat)
my_getattr-network_example =
    my_getattr-network plain three node_name file 0 three-IsServing
      (all_differ-Lacks comma file refl) (all_differ-Lacks 0 stored refl) (omega arith)
      (omega arith, omega arith) (omega arith)

xmp_unlink-network_example :
    (xmp_unlink plain node_name (network three) file 0 ≡ some (pos 0))
    × ((nn_turn dn_turn : Turn) × (d : Datagram) × (receivecommand_namenode plain all_answer
            client_host
            (codes "unlink,/tmp/CS545/datanode/f")
            lists
            0
          ≡ some (nn_turn, 0))
        × (nn_turn.reply ≡ some (sent d))
        × (d.to_ip ≡ codes "10.0.0.1")
        × (receivecommand_datanode plain three.datanode_namenode d.payload three.dn_lists 0
            ≡ some (dn_turn, 0)))
xmp_unlink-network_example =
    xmp_unlink-network plain three node_name file 0 three-IsServing
      (all_differ-Lacks comma file refl) (all_differ-Lacks 0 stored refl) (omega arith)
      (omega arith, omega arith)

xmp_read-network_example :
    xmp_read plain node_name (network three) file (pos 4) (pos 0) [] 0
    ≡ some (pos 3, some (codes "abc"))
unfolding snprintf10
xmp_read-network_example =
    xmp_read-network plain three node_name file 0 three-IsServing (all_differ-Lacks comma file refl)
      (all_differ-Lacks 0 stored refl) (omega arith) (pos 4) (pos 0) (omega arith) (omega arith)
      (all_differ-Lacks 0 (codes "/tmp/CS545/datanode/f,4,0") refl) (omega arith) (λ h. cc)
      (λ h. cc) (omega arith) (omega arith, omega arith)
      (record {
        no_comma = all_differ-Lacks comma (codes "abc") refl;
        no_nul = all_differ-Lacks 0 (codes "abc") refl;
        not_empty = λ h. cc;
      })
      (4, refl, omega arith)
