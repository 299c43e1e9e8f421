-- ===== src/Witness/Store.antt =====
-- A concrete tree that is written to a file and read back.
use dsproj.Common.{some, none, []}
use dsproj.Text.{codes}
use dsproj.Tree.{Node, Tree}
use dsproj.Witness.Folders.{folder}

abbrev root_node : Node
root_node = folder (codes "home") (some 1)

abbrev empty_heap : Tree
empty_heap = record { nodes = []; head = none; nodeno = 0 }
