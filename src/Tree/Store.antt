-- ===== src/Tree/Store.antt =====
-- The tree of dd.c in a file: recursestore and storelist write a line for each node, recoverlist reads
-- the lines and enters the nodes again. The output is not modelled.
pub mod Line
pub mod Order
pub mod Chain
pub mod Recover
use dsproj.Common.{
  ℕ, zero, suc, ◌+◌, ℤ, pos, negsuc, Bool, true, false, not, ◌==◌, if◌then◌else◌, Option, none,
  some, List, [], ◌∷◌, ◌++◌, length, ◌>>=◌,
}
use dsproj.Text.{Bytes, codes, comma, snprintf10, is_space, strtok, within, number}
use dsproj.Registry.Config.{onto_line}
use dsproj.Tree.{
  Info, Node, Tree, Pointer, node_at, max_path, onto, create_node, addnode, ninitialize,
}

-- Texts and numbers, each with a comma behind it, before the rest of the line.
unfoldable pub names_text : List Bytes → Bytes → Bytes
names_text [] rest = rest
names_text (d ∷ ds) rest = d ++ (comma ∷ names_text ds rest)

unfoldable pub numbers_text : List ℕ → Bytes → Bytes
numbers_text [] rest = rest
numbers_text (n ∷ ns) rest = snprintf10 (pos n) ++ (comma ∷ numbers_text ns rest)

-- The line of a node before the given end.
abbrev pub node_text : Info → Bytes → Bytes
node_text info end = numbers_text (info.nno ∷ info.pno ∷ []) (
    names_text (info.fname ∷ info.dname)
      (names_text (info.loc ∷ []) (numbers_text (info.dflag ∷ info.dsync) end)))

-- recursestore: the line is built in char[1000]; then the nodes below, then those behind. The fuel
-- bounds the depth of the calls. DNULL would be read by printdata.
pub recursestore : ℕ → Tree → Pointer → Option Bytes
recursestore zero t tnode = none
recursestore (suc fuel) t tnode = node_at t tnode >>= λ n.
    let below : Option Bytes = elim n.fold [
      | none ↦ some []
      | some a ↦ recursestore fuel t (some a)
    ] in
    let behind : Option Bytes = elim n.next [
      | none ↦ some []
      | some a ↦ recursestore fuel t (some a)
    ] in
    within 1000 (node_text n.info (codes "ENDD\n")) >>= λ buffer.
    below >>= λ text_below. behind >>= λ text_behind. some (buffer ++ (text_below ++ text_behind))

-- storelist opens "data.txt" for appending, whatever the path it is given; `old` is what the file holds,
-- `none` if it cannot be opened: then -1 is returned. The result is the file behind it.
pub storelist : ℕ → Tree → Pointer → Option Bytes → Option (ℤ × Option Bytes)
unfolding recursestore
storelist fuel t thead none = some (negsuc 0, none)
storelist fuel t thead (some old) =
    recursestore fuel t thead >>= λ text. some (pos 0, some (old ++ text))

-- The words that fscanf with "%s" reads, one after the other.
abbrev pub starts_word : Bytes → Bool
starts_word [] = false
starts_word (c ∷ s) = if is_space c then false else true

pub words : Bytes → List Bytes
words [] = []
words (c ∷ s) =
    let rest = words s in
    if is_space c then rest else if starts_word s then onto_line c rest else (c ∷ []) ∷ rest

-- A text for an array of 100 bytes of datadef.
read_name : Bytes → Option (Bytes × Bytes)
read_name s = strtok comma s >>= λ (ptr, s1). within max_path ptr >>= λ name. some (name, s1)

read_names : ℕ → Bytes → Option (List Bytes × Bytes)
unfolding read_name
read_names zero s = some ([], s)
read_names (suc k) s =
    read_name s >>= λ (name, s1). (read_names k s1 >>= λ (names, s2). some (name ∷ names, s2))

-- A number; a negative one is outside of the model.
abbrev pub natural : ℤ → Option ℕ
natural (pos n) = some n
natural (negsuc n) = none

read_natural : Bytes → Option (ℕ × Bytes)
read_natural s = number s >>= λ (v, s1). natural v >>= λ n. some (n, s1)

read_numbers : ℕ → Bytes → Option (List ℕ × Bytes)
unfolding read_natural
read_numbers zero s = some ([], s)
read_numbers (suc k) s =
    read_natural s >>= λ (n, s1). (read_numbers k s1 >>= λ (ns, s2). some (n ∷ ns, s2))

-- The fields of one line, in char buffer[1000].
pub read_node : Bytes → Option Info
unfolding read_names read_numbers
read_node word = do
  buffer ← within 1000 word
  (nno, s) ← read_natural buffer
  (pno, s) ← read_natural s
  (fname, s) ← read_name s
  (dname, s) ← read_names 5 s
  (loc, s) ← read_name s
  (dflag, s) ← read_natural s
  (dsync, _) ← read_numbers 5 s
  some (record {
    nno = nno;
    pno = pno;
    fname = fname;
    dname = dname;
    loc = loc;
    dflag = dflag;
    dsync = dsync;
  })

-- The loop behind the first line: each node is entered in the folder that its field loc names. The array
-- tdata.loc keeps what an earlier, longer text left behind the NUL.
recover_nodes : ℕ → Tree → Bytes → Bytes → List Bytes → Option Tree
unfolding read_node
recover_nodes fuel t unset loc_array [] = some t
recover_nodes fuel t unset loc_array (buffer ∷ rest) = read_node buffer >>= λ tdata.
    (let loc_array = onto loc_array (tdata.loc ++ 0 ∷ []) in
      addnode fuel t unset loc_array tdata >>= λ (tnode, t1).
      recover_nodes fuel t1 unset loc_array rest)

-- The first line becomes head, with a fresh node; nodeno stays as it is.
abbrev pub with_head : Tree → Info → Tree
with_head t tdata = record t {
  nodes = t.nodes ++ some (create_node tdata) ∷ [];
  head = some (length t.nodes);
}

recover_lines : ℕ → Tree → Bytes → Bytes → List Bytes → Option Tree
unfolding recover_nodes
recover_lines fuel t unset loc_array [] = some t
recover_lines fuel t unset loc_array (buffer ∷ rest) = read_node buffer >>= λ tdata.
    recover_nodes fuel (with_head t tdata) unset (onto loc_array (tdata.loc ++ 0 ∷ [])) rest

-- recoverlist on the file's text; without the file a new tree is set up. `unset` and `loc_array` are
-- what the local arrays held before.
pub recoverlist : ℕ → Node → Tree → Bytes → Bytes → Option Bytes → Option Tree
unfolding recover_lines words
recoverlist fuel new1 t unset loc_array none = some (ninitialize new1 t)
recoverlist fuel new1 t unset loc_array (some text) =
    recover_lines fuel t unset loc_array (words text)
