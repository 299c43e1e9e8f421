-- ===== src/Registry.antt =====
-- The lists that the namenode keeps (list.c): the datanodes with their last known state, and for each
-- file the datanodes that hold a replica. The nodes of a list are numbered by their place, since none
-- is ever removed: a pointer to a node is its number, NULL is `none`. A result `none` of an operation
-- is undefined behaviour, such as a read through NULL or a write past an array.
pub mod Fetch
pub mod Insert
pub mod Room
pub mod Locate
pub mod Known
pub mod Config
pub mod Lines
pub mod Reload
pub mod Names
pub mod Invariant
pub mod Answer
use dsproj.Common.{
  ℕ, zero, suc, ◌+◌, ◌-◌, ℤ, pos, eq_ℤ, Bool, true, false, not, ◌&&◌, ◌||◌, ltb, leb, ◌==◌,
  if◌then◌else◌, Option, none, some, List, [], ◌∷◌, ◌++◌, length, get_elem?, set, replicate, ◌>>=◌,
  ◌>>◌, defined_if,
}
use dsproj.Text.{Bytes, codes, comma, same, snprintf10}
use dsproj.Wait.{wait_flag}

-- `struct _datanode`; `alive` is 1, or 0 for a dead node.
pub record Datanode : Type 0 where
  pub node : Bytes
  pub ip : Bytes
  pub alive : ℤ

-- One place of the four arrays of `struct _filelist`: 0 in `rep` is free, 1 a replica, above 1 one that
-- is not in step.
pub record Slot : Type 0 where
  pub rep : ℕ
  pub replica : Bytes
  pub d_ino : ℤ
  pub d_type : ℤ

pub record Filelist : Type 0 where
  pub name : Bytes
  pub slots : List Slot

-- The global state of list.c. `dlist` is the variable in which every walk over the datanodes leaves its
-- last node; `config` is the text of the file at namenode_configfile.
pub record Lists : Type 0 where
  pub datanodes : List Datanode
  pub dlist : Option ℕ
  pub files : List Filelist
  pub config : Bytes

-- global.h
abbrev pub datanode_dir : Bytes
datanode_dir = codes "/tmp/CS545/datanode"

-- The test of the waiting loop from which on an answer to the ping is seen, if any.
abbrev pub Pong : Type 0
Pong = Bytes → Option ℕ

abbrev pub seen_from : Option ℕ → ℕ → Bool
seen_from none test = false
seen_from (some first) test = leb first test

-- check_nodealive of network_common.c; each call pings the node and waits. For the time of one
-- operation of the namenode a node either answers or does not.
unfoldable pub check_nodealive : Pong → Bytes → Bool
check_nodealive pong name = wait_flag (seen_from (pong name))

-- The first datanode of that name, counted from `i`.
abbrev pub find_node : ℕ → Bytes → List Datanode → Option ℕ
find_node i name [] = none
find_node i name (dn ∷ dns) = if same dn.node name then some i else find_node (i + 1) name dns

unfoldable pub datanode_search : Bytes → Lists → Option ℕ × Lists
datanode_search name st =
    let found = find_node 0 name st.datanodes in (found, record st { dlist = found })

-- The name without a slash at its end.
abbrev pub strip_slash : Bytes → Bytes
strip_slash [] = []
strip_slash (c ∷ []) = if c == b'/' then [] else c ∷ []
strip_slash (c ∷ d ∷ s) = c ∷ strip_slash (d ∷ s)

abbrev pub find_file : ℕ → Bytes → List Filelist → Option ℕ
find_file i name [] = none
find_file i name (f ∷ fs) =
    if same f.name name || same f.name (strip_slash name) then some i else find_file (i + 1) name fs

-- How the walk over the files ends: at an entry, or at NULL on the empty list. The link of the last entry
-- is not set after its malloc (filenode_insert), so a walk that passes it reads what was never written.
unfoldable pub walked : List Filelist → Option ℕ → Option (Option ℕ)
walked fs (some i) = some (some i)
walked [] none = some none
walked (f ∷ fs) none = none

-- The last byte of an empty name lies before the copy of the name.
unfoldable pub filelist_search : Bytes → Lists → Option (Option ℕ)
unfolding walked
filelist_search [] st = none
filelist_search (c ∷ name) st = walked st.files (find_file 0 (c ∷ name) st.files)

abbrev pub free_slot : Slot
free_slot = record { rep = 0; replica = []; d_ino = pos 0; d_type = pos 0 }

-- initFile, on the 50 places of a new file.
abbrev pub init_file : List Slot
init_file = replicate 50 free_slot

-- The first free place is filled (getRepcreatenum); with none free the place -1 is written.
abbrev pub fill_slot : Slot → List Slot → Option (List Slot)
fill_slot new [] = none
fill_slot new (sl ∷ sls) =
    if sl.rep == 0 then some (new ∷ sls) else (fill_slot new sls >>= λ rest. some (sl ∷ rest))

-- A text in an array of 100 bytes.
abbrev pub fits100 : Bytes → Option (Unit {0})
fits100 s = defined_if (ltb (length s) 100)

-- A new entry at the end; the search before has found an empty list.
abbrev pub add_file : Slot → Bytes → List Filelist → Option (List Filelist)
add_file new name fs = do
  fits100 name
  slots ← fill_slot new init_file
  some (fs ++ record { name = name; slots = slots } ∷ [])

abbrev pub add_replica : Slot → ℕ → List Filelist → Option (List Filelist)
add_replica new i fs = do
  file ← get_elem? fs i
  slots ← fill_slot new file.slots
  some (set fs i (record { name = file.name; slots = slots }))

abbrev pub enter_file : Slot → Bytes → Option ℕ → List Filelist → Option (List Filelist)
enter_file new name none fs = add_file new name fs
enter_file new name (some i) fs = add_replica new i fs

unfoldable pub filenode_insert : Bytes → ℤ → ℤ → Bytes → Lists → Option Lists
filenode_insert name type ino dn st = do
  fits100 dn
  found ← filelist_search name st
  files ←
      enter_file (record { rep = 1; replica = dn; d_ino = ino; d_type = type }) name found st.files
  some (record st { files = files })

-- One line for each datanode.
abbrev pub config_text : List Datanode → Bytes
config_text [] = []
config_text (dn ∷ dns) =
    dn.node ++ (comma ∷ (dn.ip ++ (comma ∷ (snprintf10 dn.alive ++ (b'\n' ∷ config_text dns)))))

-- datanode_filewrite with writednconfig: the walk leaves `dlist` at NULL.
unfoldable pub datanode_filewrite : Lists → Option Lists
datanode_filewrite st = do
  defined_if (ltb (length (config_text st.datanodes)) 10000)
  some (record st { dlist = none; config = config_text st.datanodes })

-- The state of a known datanode is set to 1.
abbrev pub set_alive : ℤ → ℕ → List Datanode → List Datanode
set_alive alive i [] = []
set_alive alive zero (dn ∷ dns) = record dn { alive = alive } ∷ dns
set_alive alive (suc i) (dn ∷ dns) = dn ∷ set_alive alive i dns

-- A new datanode is appended with the given state, a known one is set to alive.
abbrev pub enter_node : Option ℕ → Datanode → List Datanode → List Datanode
enter_node none dn dns = dns ++ dn ∷ []
enter_node (some i) dn dns = set_alive (pos 1) i dns

-- Each call also fills one more place of the entry for the datanodes' folder.
unfoldable pub datanode_insert : Bytes → Bytes → ℤ → Lists → Option Lists
datanode_insert name ip alive st = do
  let (found, st1) = datanode_search name st
  let dns = enter_node found (record { node = name; ip = ip; alive = alive }) st1.datanodes
  st2 ← filenode_insert datanode_dir (pos 0) (pos 0) name (record st1 { datanodes = dns })
  datanode_filewrite st2
