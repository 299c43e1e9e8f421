-- ===== src/Namenode/Invariant.antt =====
-- The lists of the namenode over a turn of receivecommand_namenode, whatever the message.
use dsproj.Common.{
  All-get, All-map, ℕ, ◌+◌, pos, Bool, true, ◌&&◌, ◌==◌, ltb, Option, none, some, List, [], ◌∷◌,
  ◌≡◌, ◌≢◌, get_elem?, arith, refl, ◌∙◌, sym, subst, Bool-cases, Option-cases, inl, inr,
}
use dsproj.Text.{Bytes}
use mathlib.Core.Option.{some-injective}
use dsproj.Posix.{Posix}
use dsproj.Registry.{
  Datanode, Slot, Lists, Pong, Filelist, find_file, find_node, filelist_search, walked,
  datanode_filewrite, check_nodealive,
}
use dsproj.Registry.Locate.{getfiledn, fetch_datanode, first_alive, node_at, replica_of}
use dsproj.Registry.Known.{IsKnown}
use dsproj.Registry.Invariant.{
  IsWellFormed, IsPlaced, filenode_insert-IsWellFormed, datanode_insert-IsWellFormed,
}
use dsproj.Registry.Insert.{walked-same, >>=-some}
use dsproj.Registry.Answer.{answering, file_replica, replica_of-file_replica}
use dsproj.Dispatch.{Turn}
use dsproj.Namenode.Kept.{IsKept, receivecommand_namenode-Inv}
use dsproj.Namenode.{receivecommand_namenode}

-- The walk of fetch_datanode keeps the names.
find_node-first_alive :
    (pong : Pong) (i j : ℕ) (name : Bytes) (dns : List Datanode)
    → find_node j name (first_alive pong i dns).1 ≡ find_node j name dns
unfolding first_alive
find_node-first_alive pong i j name [] = refl
find_node-first_alive pong i j name (dn ∷ dns) =
    ground (arith, find_node-first_alive pong (i + 1) (j + 1) name dns)

answering-IsKnown :
    (pong : Pong) (wanted : ℕ → Bool) (dns : List Datanode) (sls : List Slot) (dn : Bytes)
    → ((rep : ℕ) → wanted rep ≡ true → rep ≢ 0)
    → IsPlaced dns sls
    → answering pong wanted sls ≡ some dn
    → IsKnown dns dn
answering-IsKnown pong wanted dns [] dn used placed h = cc
answering-IsKnown pong wanted dns (sl ∷ sls) dn used placed h =
    elim (Bool-cases (wanted sl.rep && check_nodealive pong sl.replica)) [
      | inl here ↦
          subst (IsKnown dns) (some-injective _ _ (rw here at h))
            (placed.0 (used sl.rep (ground arith)))
      | inr later ↦ answering-IsKnown pong wanted dns sls dn used placed.1 (rw later at h)
    ]

file_replica-IsKnown :
    (pong : Pong) (dns : List Datanode) (sls : List Slot) (dn : Bytes)
    → IsPlaced dns sls
    → file_replica pong sls ≡ some dn
    → IsKnown dns dn
file_replica-IsKnown pong dns sls dn placed h =
    elim (Option-cases (answering pong (λ rep. rep == 1) sls)) [
      | inl nothing ↦
          answering-IsKnown pong (λ rep. ltb 1 rep) dns sls dn (λ rep k. ground arith) placed
            (rw (file_replica, nothing) at h)
      | inr (d, e) ↦
          answering-IsKnown pong (λ rep. rep == 1) dns sls dn (λ rep k. ground arith) placed
            (e ∙ rw (file_replica, e) at h)
    ]

-- What getfiledn leaves: well-formed lists, and a datanode that they know.
unfoldable pub IsLocated : Option Bytes → Lists → Type 0
IsLocated r st =
    IsWellFormed st.datanodes st.files × ((dn : Bytes) → r ≡ some dn → IsKnown st.datanodes dn)

fetched_lists :
    (pong : Pong) (dns : List Datanode) (st : Lists) {o : Option ℕ} {st' : Lists}
    → st.datanodes ≡ dns
    → fetch_datanode pong st ≡ some (o, st')
    → (o ≡ none) × (st'.files ≡ st.files) × (st'.datanodes ≡ (first_alive pong 0 dns).1)
unfolding fetch_datanode datanode_filewrite
fetched_lists pong [] st e h = unfold first_alive in (ground arith)
fetched_lists pong (dn ∷ dns) st {o} {st'} e h = let h1 = rw e at h in ground arith

fetched-IsLocated :
    (pong : Pong) (st : Lists) {o : Option ℕ} {st' : Lists}
    → IsWellFormed st.datanodes st.files
    → fetch_datanode pong st ≡ some (o, st')
    → IsLocated (node_at o st'.datanodes) st'
unfolding IsLocated
fetched-IsLocated pong st {o} {st'} formed h =
    let (nothing, files, nodes) = fetched_lists pong st.datanodes st refl h in
    (
      rw (files, nodes)
          (All-map _ _
            (λ f.
              All-map _ _
                (λ sl placed used.
                  let (k, known) = placed used in
                  (k, find_node-first_alive pong 0 0 sl.replica st.datanodes ∙ known))
                f.slots)
            st.files formed),
      λ dn e. (let impossible = rw nothing at e in cc),
    )

pub getfiledn-IsLocated :
    (pong : Pong) (name host : Bytes) (st : Lists) {r : Option Bytes} {st' : Lists}
    → IsWellFormed st.datanodes st.files
    → getfiledn pong name host st ≡ some (r, st')
    → IsLocated r st'
unfolding getfiledn filelist_search
getfiledn-IsLocated pong [] host st formed h = cc
getfiledn-IsLocated pong (c ∷ name) host st {r} {st'} formed h =
    let (found, searched, h1) = >>=-some (walked st.files (find_file 0 (c ∷ name) st.files)) _ h in
    let is = walked-same st.files _ searched in
    elim (Option-cases (find_file 0 (c ∷ name) st.files)) [
      | inl new ↦
          (let ((o, st1), fetched, e) =
              >>=-some (fetch_datanode pong st) (λ x. some (node_at x.0 x.1.datanodes, x.1))
                (rw (is ∙ new) at h1) in
            subst (λ x. IsLocated x.0 x.1) (some-injective _ _ e)
              (fetched-IsLocated pong st formed fetched))
      | inr (i, listed) ↦
          (let (f, at, e) =
              >>=-some (get_elem? st.files i) (λ f. replica_of pong f st)
                (rw (is ∙ listed) at h1) in
            let placed =
              All-get (λ (f : Filelist). IsPlaced st.datanodes f.slots) st.files i formed at in
            let (d, located) = replica_of-file_replica pong f st placed in
            subst (λ x. IsLocated x.0 x.1) (some-injective _ _ (sym located ∙ e))
              (unfold IsLocated in
                (formed, λ dn k. file_replica-IsKnown pong st.datanodes f.slots dn placed k)))
    ]

IsWellFormed-IsKept :
    IsKept (λ st. IsWellFormed st.datanodes st.files) (λ st dn. IsKnown st.datanodes dn)
unfolding IsLocated
IsWellFormed-IsKept = record {
  located = getfiledn-IsLocated;
  entered = λ path dn st formed known e.
      filenode_insert-IsWellFormed path dn (pos 0) (pos 0) st known formed e;
  registered = λ host ip st formed e. (datanode_insert-IsWellFormed host ip (pos 1) st formed e).0;
}

-- Whatever message comes from whatever host, and whichever datanodes answer: if every replica is
-- on a registered datanode, a turn of the namenode that ends without undefined behaviour leaves
-- it so.
receivecommand_namenode-IsWellFormed :
    {S : Type 0} (os : Posix S) (pong : Pong) (host msg : Bytes) (lists : Lists) (s : S)
    {turn : Turn} {s' : S}
    → IsWellFormed lists.datanodes lists.files
    → receivecommand_namenode os pong host msg lists s ≡ some (turn, s')
    → IsWellFormed turn.lists.datanodes turn.lists.files
receivecommand_namenode-IsWellFormed os pong host msg lists s formed h =
    receivecommand_namenode-Inv os _ _ IsWellFormed-IsKept pong host msg lists s formed h
