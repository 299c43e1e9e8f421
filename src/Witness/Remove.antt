-- ===== src/Witness/Remove.antt =====
-- Concrete removals from a tree.
use dsproj.Common.{some, none, [], ◌∷◌, ◌++◌, ◌≡◌, refl}
use dsproj.Text.{codes, Bytes}
use dsproj.Tree.{Node, Tree, entry, create_node, search, searchloc, in_folder, find_named}
use dsproj.Paths.{parserpath, removepath, findfch, cstrcpy}
use dsproj.Tree.Remove.{removefile, removefold, removefold_stuck}
use dsproj.Witness.Folders.{folder, f1, junk, unset}

abbrev first : Node
first = record f1 { prev = some 0; next = some 2 }

abbrev second : Node
second = record (create_node (entry 1 (codes "fd") (codes "n1") (codes "home"))) { prev = some 1 }

abbrev top : Node
top = folder (codes "home") (some 1)

abbrev a_tree : Tree
a_tree = record { nodes = some top ∷ some first ∷ some second ∷ []; head = some 0; nodeno = 3 }

abbrev f1_path : Bytes
f1_path = codes "home/f1" ++ (0 ∷ junk)

abbrev fd_path : Bytes
fd_path = codes "home/fd" ++ (0 ∷ junk)

removefold_stuck_example :
    (second.next ≡ none
      → (removefile 9 a_tree unset fd_path ≡ none) × (removefold 10 a_tree unset fd_path ≡ none))
    × (second.fold ≡ none → removefold 10 a_tree unset fd_path ≡ none)
unfolding search searchloc in_folder find_named parserpath removepath findfch cstrcpy
removefold_stuck_example =
    removefold_stuck 9 a_tree unset fd_path 2 1 second first refl refl refl refl
