-- ===== src/Tree/Store/Recover.antt =====
-- The tree that recoverlist makes of the text that storelist wrote: the files of "home".
use dsproj.Common.{ℕ, ◌+◌, ◌≡◌, ◌≢◌, List, [], ◌∷◌}
use dsproj.Text.{Bytes}
use dsproj.Tree.{Info, Tree, home}
use dsproj.Tree.Store.{with_head}
use dsproj.Tree.Store.Chain.{Chain}

-- The numbers that addnode gives anew: nno goes on from nodeno, pno is the number of the entry before.
abbrev pub renumbered : ℕ → ℕ → List Info → List Info
renumbered before nodeno [] = []
renumbered before nodeno (f ∷ fs) =
    record f { pno = before; nno = nodeno + 1 } ∷ renumbered (nodeno + 1) (nodeno + 1) fs

abbrev pub IsHomeFile : Info → Type 0
IsHomeFile f = (f.loc ≡ home) × (f.dflag ≢ 1)

module _ (fuel : ℕ) (t : Tree) (unset loc_array : Bytes) (root : Info)
    (folder : root.dflag ≡ 1) where
  abbrev started : Tree
  started = with_head t root
