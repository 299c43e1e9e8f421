-- ===== src/Tree.antt =====
-- The directory tree of dd.c: the nodes on a heap, the search for a path and the entering of a file or
-- a folder.
pub mod Search
pub mod Heap
pub mod Add
pub mod Store
pub mod Remove
use dsproj.Common.{
  ℕ, zero, suc, ◌+◌, ℤ, eq_ℤ, minus_one, Bool, true, false, ◌==◌, if◌then◌else◌, Option, none, some,
  ◌>>=◌, ◌>>◌, List, [], ◌∷◌, ◌++◌, length, get_elem?, set, drop, replicate,
}
use dsproj.Text.{Bytes, codes, c_str, same, within}
use dsproj.Paths.{findfch, parserpath, removepath, slash}
use dsproj.Registry.{Lists, Pong, datanode_search}
use dsproj.Registry.Locate.{fetch_datanode}

-- datadef; an array of characters is the string in it.
pub record Info : Type 0 where
  pub nno : ℕ
  pub pno : ℕ
  pub fname : Bytes
  pub dname : List Bytes
  pub loc : Bytes
  pub dflag : ℕ
  pub dsync : List ℕ

-- A pointer to a node is its place on the heap, or DNULL.
abbrev pub Pointer : Type 0
Pointer = Option ℕ

pub record Node : Type 0 where
  pub info : Info
  pub next : Pointer
  pub prev : Pointer
  pub fold : Pointer

-- The heap, in which a freed node is `none`, and the variables head and nodeno.
pub record Tree : Type 0 where
  pub nodes : List (Option Node)
  pub head : Pointer
  pub nodeno : ℕ

-- Reading through a pointer, and writing.
abbrev pub node_at : Tree → Pointer → Option Node
node_at t none = none
node_at t (some a) = get_elem? t.nodes a >>= λ n. n

abbrev pub store : Tree → ℕ → Node → Tree
store t a n = record t { nodes = set t.nodes a (some n) }

abbrev pub home : Bytes
home = codes "home"

abbrev pub max_path : ℕ
max_path = 100

-- The loop of searchloc along `next`, and that along `next` of searchlast, on fuel.
unfoldable pub find_named : ℕ → Tree → Bytes → Pointer → Option Pointer
find_named zero t name temp = none
find_named (suc fuel) t name none = some none
find_named (suc fuel) t name (some a) = node_at t (some a) >>= λ n.
    let rest = find_named fuel t name n.next in
    if same n.info.fname name then some (some a) else rest

unfoldable pub last_of : ℕ → Tree → ℕ → Option ℕ
last_of zero t a = none
last_of (suc fuel) t a =
    node_at t (some a) >>= λ n. elim n.next [ none ↦ some a | some b ↦ last_of fuel t b ]

-- `char tpath[MAX_PATH]` behind the writing of those bytes; `unset` is what it held before.
abbrev pub onto : Bytes → Bytes → Bytes
onto unset written = written ++ drop (length written) unset

-- The last folder of the path is reached.
unfoldable pub in_folder : ℕ → Tree → Pointer → Bytes → Option Pointer
in_folder fuel t temp name =
    let listed : Option Pointer =
      (node_at t temp >>= λ n.
      (if same n.info.fname home then (node_at t t.head >>= λ h. some h.fold) else some temp)
      >>= find_named fuel t name) in
    if same name home then some t.head else listed

unfoldable pub searchloc : ℕ → Tree → Bytes → Pointer → Bytes → Option Pointer
searchloc zero t unset temp vpath = none
searchloc (suc fuel) t unset temp vpath =
    let below : Option Pointer =
      (parserpath max_path vpath >>= λ foldname.
      find_named fuel t (c_str foldname) temp >>= λ found. elim found [
        | none ↦ some none
        | some a ↦ node_at t (some a) >>= λ n.
            removepath max_path vpath >>= λ tpath. searchloc fuel t unset n.fold (onto unset tpath)
      ]) in
    findfch 0 vpath slash >>= λ ipos.
    if eq_ℤ ipos minus_one then in_folder fuel t temp (c_str vpath) else below

unfoldable pub search : ℕ → Tree → Bytes → Bytes → Option Pointer
search fuel t unset vpath =
    if same (c_str vpath) home then some t.head else searchloc fuel t unset t.head vpath

-- printdata only reads its node. A path that is not found is read through DNULL.
unfoldable pub searchlast : ℕ → Tree → Bytes → Bytes → Option ℕ
searchlast fuel t unset tpath = search fuel t unset tpath >>= λ found. elim found [
  | none ↦ none
  | some a ↦ node_at t (some a) >>= λ n. elim n.fold [ none ↦ some a | some b ↦ last_of fuel t b ]
]

-- The fields of create_node are overwritten by `vdata`.
abbrev pub create_node : Info → Node
create_node vdata = record { info = vdata; next = none; prev = none; fold = none }

-- The same for a folder; nothing calls it.
abbrev create_dnode : Info → Node
create_dnode vdata = record {
  info = record vdata { dflag = 1 };
  next = none;
  prev = none;
  fold = none;
}

-- A fresh place for the new node, which is entered below the node found if that is a folder, else
-- behind it.
unfoldable pub addnode : ℕ → Tree → Bytes → Bytes → Info → Option (ℕ × Tree)
addnode fuel t unset vpath vdata =
    let new = length t.nodes in
    searchlast fuel t unset vpath >>= λ a. node_at t (some a) >>= λ tnode.
    let linked =
      if tnode.info.dflag == 1
      then record tnode { fold = some new }
      else record tnode { next = some new } in
    let newnode : Node =
      record (create_node (record vdata { pno = tnode.info.nno; nno = t.nodeno + 1 })) {
        prev = some a;
      } in
    some (
      new,
      record t { nodes = set t.nodes a (some linked) ++ some newnode ∷ []; nodeno = t.nodeno + 1 },
    )

-- The entry that addfile (dflag 0) and addfolder (dflag 1) build.
abbrev pub entry : ℕ → Bytes → Bytes → Bytes → Info
entry dflag fname dname loc =
    let unused = codes "none" in
    record {
      nno = 0;
      pno = 0;
      fname = fname;
      dname = dname ∷ unused ∷ unused ∷ unused ∷ unused ∷ [];
      loc = loc;
      dflag = dflag;
      dsync = 1 ∷ 0 ∷ 0 ∷ 0 ∷ 0 ∷ [];
    }

unfoldable pub addentry : ℕ → ℕ → Tree → Bytes → Bytes → Bytes → Bytes → Option (ℕ × Tree)
addentry dflag fuel t unset fname dname loc = do
  fname ← within max_path fname
  dname ← within max_path dname
  loc_text ← within max_path (c_str loc)
  addnode fuel t unset loc (entry dflag fname dname loc_text)

unfoldable pub addfile : ℕ → Tree → Bytes → Bytes → Bytes → Bytes → Option (ℕ × Tree)
unfolding addentry
addfile fuel = addentry 0 fuel

unfoldable pub addfolder : ℕ → Tree → Bytes → Bytes → Bytes → Bytes → Option (ℕ × Tree)
unfolding addentry
addfolder fuel = addentry 1 fuel

-- `new1` is what malloc gives; the fields dsync and prev keep that.
unfoldable pub ninitialize : Node → Tree → Tree
ninitialize new1 t =
    let unused = codes "none" in
    let info : Info = record new1.info {
      nno = 1;
      pno = 0;
      fname = home;
      dname = codes "Root" ∷ unused ∷ unused ∷ unused ∷ unused ∷ [];
      loc = codes "Root";
      dflag = 1;
    } in
    record {
      nodes = t.nodes ++ some (record new1 { info = info; next = none; fold = none }) ∷ [];
      head = some (length t.nodes);
      nodeno = 1;
    }

-- The node's name that getdatanode returns. Each of its tests ends in a semicolon, so the first pass
-- of its first loop breaks with fh 0.
unfoldable pub getdatanode :
    ℕ → Pong → Tree → Bytes → Bytes → Bytes → Lists → Option (Option Bytes × Lists)
getdatanode fuel pong t unset path host lists =
    let fetched : Lists → Option (Option Bytes × Lists) = λ st.
      (fetch_datanode pong st >>= λ (dn, st1). elim dn [
        | none ↦ some (none, st1)
        | some i ↦ get_elem? st1.datanodes i >>= λ d. some (some d.node, st1)
      ]) in
    let unlisted : Option (Option Bytes × Lists) =
      (let (dn, st) = datanode_search host lists in
        elim dn [
          | none ↦ fetched st
          | some i ↦ get_elem? st.datanodes i >>= λ d. some (some d.node, st)
        ]) in
    search fuel t unset path >>= λ found. elim found [
      | none ↦ unlisted
      | some a ↦ node_at t (some a) >>= λ tnode.
          get_elem? tnode.info.dname 0 >>= λ name. some (some name, lists)
    ]
