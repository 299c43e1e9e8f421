-- ===== src/Witness/Folders.antt =====
-- Concrete paths, and a small tree.
use dsproj.Common.{ℕ, ◌≤◌, some, none, [], ◌∷◌, ◌++◌, ◌≡◌, refl, ap, arith, length, replicate}
use dsproj.Text.{Bytes, codes, c_str}
use dsproj.Paths.{slash, parserpath, removepath}
use dsproj.Paths.Split.{path_array, parserpath-removepath, removepath_past}
use dsproj.Dispatch.Request.{all_differ-Lacks}
use dsproj.Tree.{Node, Tree, Pointer, entry, create_node, search, addfile}
use dsproj.Tree.Search.{here, Finds, last, down, search-Finds}
use dsproj.Tree.Add.{end, home_array, addfile-search}

abbrev root : Bytes
root = codes "home"

abbrev rest : Bytes
rest = codes "fd/f1"

abbrev pub junk : Bytes
junk = replicate 60 7

parserpath-removepath_example :
    (parserpath 100 (path_array root rest junk) ≡ some (root ++ (0 ∷ [])))
    × ((copied : Bytes) × (removepath 100 (path_array root rest junk) ≡ some copied)
        × (c_str copied ≡ rest))
parserpath-removepath_example =
    parserpath-removepath 100 root rest junk (all_differ-Lacks 0 root refl)
      (all_differ-Lacks slash root refl) (all_differ-Lacks 0 rest refl) (omega arith) (omega arith)
      (omega arith)

-- The literal "home/fd/f1".
removepath_past_example : removepath 100 (codes "home/fd/f1" ++ (0 ∷ [])) ≡ none
removepath_past_example =
    removepath_past 100 root rest [] (all_differ-Lacks 0 root refl)
      (all_differ-Lacks slash root refl) (all_differ-Lacks 0 rest refl) (omega arith)

abbrev pub unset : Bytes
unset = replicate 100 9

-- A folder with its first entry.
abbrev pub folder : Bytes → Pointer → Node
folder name first = record (create_node (entry 1 name (codes "n1") root)) { fold = first }

abbrev pub f1 : Node
f1 = create_node (entry 0 (codes "f1") (codes "n1") root)

abbrev pub flat : Tree
flat = record { nodes = some (folder root (some 1)) ∷ some f1 ∷ []; head = some 0; nodeno = 2 }

abbrev nested : Tree
nested = record {
  nodes = some (folder root (some 1)) ∷ some (folder (codes "fd") (some 2)) ∷ some f1 ∷ [];
  head = some 0;
  nodeno = 3;
}

f1_found : Finds nested 2 (root ∷ codes "fd" ∷ codes "f1" ∷ []) (some 0)
f1_found =
    down root (codes "fd") _ 0 (folder root (some 1)) (some 0) (omega arith)
      (here (folder root (some 1)) refl refl) refl
      (down (codes "fd") (codes "f1") [] 1 (folder (codes "fd") (some 2)) (some 1) (omega arith)
        (here (folder (codes "fd") (some 2)) refl refl) refl
        (last (codes "f1") (some 2) f1 refl (λ e. cc) (λ e. cc) (here f1 refl refl)))

search-Finds_example :
    (enough : ℕ) × ((fuel : ℕ)
      → enough ≤ fuel
      → search fuel nested unset (codes "home/fd/f1" ++ (0 ∷ junk)) ≡ some (some 2))
search-Finds_example =
    search-Finds nested unset 2 (root ∷ codes "fd" ∷ codes "f1" ∷ []) junk refl f1_found
      (
        (all_differ-Lacks 0 root refl, all_differ-Lacks slash root refl),
        (
          (all_differ-Lacks 0 (codes "fd") refl, all_differ-Lacks slash (codes "fd") refl),
          ((all_differ-Lacks 0 (codes "f1") refl, all_differ-Lacks slash (codes "f1") refl), tt),
        ),
      )
      (omega arith) (omega arith) (λ e. cc)

addfile-search_example :
    (enough : ℕ) × ((fuel : ℕ)
      → enough ≤ fuel
      → (t' : Tree) × (addfile fuel flat unset (codes "f22") (codes "n1") home_array ≡ some (2, t'))
        × (search fuel t' unset (codes "home/f22" ++ (0 ∷ junk)) ≡ some (some 2)))
addfile-search_example =
    addfile-search flat unset (codes "f22") (codes "n1") junk 0 1 1 (folder root (some 1)) f1 refl
      refl refl refl refl (omega arith)
      (end refl refl ((λ e. (let sizes = ap length e in absurd (omega arith))), (λ e. cc)))
      (omega arith)
      (all_differ-Lacks 0 (codes "f22") refl, all_differ-Lacks slash (codes "f22") refl) (λ e. cc)
      (omega arith) (omega arith) (omega arith)
