-- ===== src/Witness/Lists.antt =====
-- Concrete lists of the namenode, and a wait.
use dsproj.Common.{
  map, ◌++◌, All, ℕ, pos, true, Option, none, some, [], ◌∷◌, ◌≤◌, ◌≡◌, refl, arith, leb, List,
}
use dsproj.Text.{codes, snprintf10}
use dsproj.Wait.{wait_flag, wait_flag_iff}
use dsproj.Registry.{
  Datanode, Slot, Filelist, Lists, Pong, check_nodealive, datanode_insert, datanode_dir, free_slot,
}
use dsproj.Registry.Locate.{first_alive, fetch_datanode, getfiledn}
use dsproj.Registry.Fetch.{fetch_datanode_null, dead, IsSilent, IsAnswering}
use dsproj.Registry.Insert.{datanode_insert_full}
use dsproj.Registry.Invariant.{IsWellFormed}
use dsproj.Registry.Answer.{getfiledn-file_replica}
use dsproj.Witness.{node_name, file}

abbrev a_node : Datanode
a_node = record { node = node_name; ip = codes "10.0.0.1"; alive = pos 1 }

abbrev a_replica : Slot
a_replica = record { rep = 1; replica = node_name; d_ino = pos 0; d_type = pos 0 }

-- A file with one place left, and a folder with none.
abbrev a_file : Filelist
a_file = record { name = file; slots = a_replica ∷ free_slot ∷ [] }

abbrev full_folder : Filelist
full_folder = record { name = datanode_dir; slots = a_replica ∷ [] }

abbrev folder : Filelist
folder = record { name = datanode_dir; slots = free_slot ∷ [] }

abbrev lists : List Filelist → Lists
lists files = record { datanodes = a_node ∷ []; dlist = none; files = files; config = [] }

abbrev all_answer : Pong
all_answer = λ name. some 5

well_formed : IsWellFormed (a_node ∷ []) (a_file ∷ [])
well_formed = (((λ _. (0, refl)), ((λ h. absurd (h refl)), tt)), tt)

wait_flag_iff_example :
    (wait_flag (leb 100) ≡ true → (c : ℕ) × (c ≤ 100) × (leb 100 c ≡ true))
    × ((c : ℕ) → c ≤ 100 → leb 100 c ≡ true → wait_flag (leb 100) ≡ true)
wait_flag_iff_example = wait_flag_iff (leb 100)

fetch_datanode_null_example :
    (st' : Lists) × (fetch_datanode all_answer (lists (a_file ∷ [])) ≡ some (none, st'))
    × ((before after : List Datanode) × (a_node ∷ [] ≡ before ++ after)
        × (st'.datanodes ≡ map dead before ++ after)
        × All (IsSilent all_answer) before
        × IsAnswering all_answer after)
    × (st'.files ≡ a_file ∷ [])
unfolding first_alive check_nodealive wait_flag snprintf10
fetch_datanode_null_example = fetch_datanode_null all_answer (lists (a_file ∷ [])) (omega arith)

datanode_insert_full_example :
    datanode_insert (codes "n2") (codes "10.0.0.2") (pos 1) (lists (full_folder ∷ [])) ≡ none
datanode_insert_full_example =
    datanode_insert_full (codes "n2") (codes "10.0.0.2") (pos 1) (lists (full_folder ∷ [])) 0
      full_folder refl refl ((λ h. cc), tt)

getfiledn-file_replica_example :
    (d : Option ℕ) × (getfiledn all_answer file (codes "h") (lists (a_file ∷ []))
      ≡ some (some node_name, record (lists (a_file ∷ [])) { dlist = d }))
unfolding check_nodealive wait_flag
getfiledn-file_replica_example =
    getfiledn-file_replica all_answer b'/' (codes "f") (codes "h") (lists (a_file ∷ [])) 0 a_file
      well_formed refl refl
