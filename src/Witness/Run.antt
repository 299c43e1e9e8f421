-- ===== src/Witness/Run.antt =====
-- A concrete life of a namenode.
use dsproj.Common.{ℕ, pos, true, some, none, [], ◌∷◌, ◌≡◌, refl, replicate, Option}
use dsproj.Text.{codes, snprintf10, atoi, strtok}
use dsproj.Posix.{hostname_to_ip, send_to}
use dsproj.Registry.{
  Lists, Filelist, config_text, datanode_dir, datanode_insert, datanode_search, filenode_insert,
  filelist_search, datanode_filewrite, free_slot, Datanode,
}
use dsproj.Registry.Config.{
  initdatanodelist, readdnconfig, load_lines, read_line, fgets_lines, strtok_in,
}
use dsproj.Registry.Invariant.{IsWellFormed}
use dsproj.Registry.Locate.{getfiledn}
use dsproj.Registry.Answer.{file_replica}
use dsproj.Registry.Reload.{IsDistinct, full_lists}
use dsproj.Namenode.{receivecommand_namenode, answer_command}
use dsproj.Monitor.{Service, monitorcommand_namenode, send_ack_rep}
use dsproj.Run.{Reach, start, command, monitor}
use dsproj.Run.Safety.{Reach-IsSound, Reach-getfiledn}
use dsproj.Witness.{plain}
use dsproj.Witness.Route.{a_node, all_answer}

abbrev loaded : Lists
loaded = full_lists (a_node ∷ [])

begun : Reach plain (record { replication_count = pos 0; lists = loaded })
unfolding initdatanodelist readdnconfig load_lines read_line fgets_lines strtok_in datanode_insert
    datanode_search filenode_insert filelist_search datanode_filewrite snprintf10 atoi strtok
begun = start (some (codes "u")) 4096 (codes "n1,10.0.0.1,1\n") 0 0 loaded refl

abbrev second_node : Datanode
second_node = record { node = codes "n2"; ip = codes "10.0.0.1"; alive = pos 1 }

abbrev both : Lists
both = full_lists (a_node ∷ second_node ∷ [])

-- A second datanode reports.
grown : Reach plain (record { replication_count = pos 0; lists = both })
unfolding receivecommand_namenode answer_command hostname_to_ip datanode_insert datanode_search
    filenode_insert filelist_search datanode_filewrite snprintf10 strtok
grown =
    command all_answer (codes "n2") (codes "datanode,") 0 0
      (record { running = true; reply = none; lists = both }) _ begun refl refl

-- The operator sets the number of replicas.
abbrev last : Service
last = record { replication_count = pos 3; lists = both }

last_reached : Reach plain last
unfolding monitorcommand_namenode send_ack_rep send_to hostname_to_ip snprintf10 atoi strtok
last_reached = monitor (codes "m1") (codes "senrep,3") 0 0 _ _ last grown refl

Reach-IsSound_example :
    IsWellFormed both.datanodes both.files
    × (both.config ≡ config_text both.datanodes)
    × IsDistinct [] both.datanodes
Reach-IsSound_example = Reach-IsSound plain last last_reached

abbrev folder : Filelist
folder = record {
  name = datanode_dir;
  slots =
      record { rep = 1; replica = codes "n1"; d_ino = pos 0; d_type = pos 0 }
      ∷ record { rep = 1; replica = codes "n2"; d_ino = pos 0; d_type = pos 0 }
      ∷ replicate 48 free_slot;
}

Reach-getfiledn_example :
    (d : Option ℕ) × (getfiledn all_answer datanode_dir (codes "c1") both
      ≡ some (file_replica all_answer folder.slots, record both { dlist = d }))
Reach-getfiledn_example =
    Reach-getfiledn plain last all_answer b'/' (codes "tmp/CS545/datanode") (codes "c1") 0 folder
      last_reached refl refl
