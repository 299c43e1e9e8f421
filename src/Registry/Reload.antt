-- ===== src/Registry/Reload.antt =====
-- Reading back the file that datanode_filewrite wrote: readdnconfig of list.c.
use dsproj.Common.{◌-◌, ◌≡◌, refl, ap, pos, none, List, [], ◌∷◌, ◌++◌, length, map, replicate}
use dsproj.Text.{Bytes}
use dsproj.Registry.{
  Datanode, Slot, Filelist, Lists, datanode_dir, free_slot, find_node, config_text,
}

-- The entries for the datanodes' folder behind the registrations of those names.
abbrev replica_slot : Bytes → Slot
replica_slot name = record { rep = 1; replica = name; d_ino = pos 0; d_type = pos 0 }

abbrev pub folder_files : List Bytes → List Filelist
folder_files [] = []
folder_files (d ∷ ds) =
    record {
      name = datanode_dir;
      slots = map replica_slot (d ∷ ds) ++ replicate (50 - length (d ∷ ds)) free_slot;
    }
    ∷ []

-- The lists behind the registration of those datanodes, one after the other.
abbrev pub node_of : Datanode → Bytes
node_of dn = dn.node

abbrev pub full_lists : List Datanode → Lists
full_lists dns = record {
  datanodes = dns;
  dlist = none;
  files = folder_files (map node_of dns);
  config = config_text dns;
}

-- No name stands twice.
abbrev pub IsDistinct : List Datanode → List Datanode → Type 0
IsDistinct old [] = Unit
IsDistinct old (dn ∷ dns) = (find_node 0 dn.node old ≡ none) × IsDistinct (old ++ dn ∷ []) dns

pub map-node_of :
    (old : List Datanode) (dn : Datanode)
    → map node_of old ++ dn.node ∷ [] ≡ map node_of (old ++ dn ∷ [])
map-node_of [] dn = refl
map-node_of (o ∷ old) dn = ap (λ l. o.node ∷ l) (map-node_of old dn)
