-- ===== src/Namenode/Saved.antt =====
-- The datanodes' file over the turns of the namenode: its text is that of the list (list.c).
use dsproj.Common.{
  All-get, ℕ, ℤ, pos, Option, some, List, [], ◌∷◌, ◌≡◌, get_elem?, arith, refl, ◌∙◌, sym, ap, subst,
  Option-cases, inl, inr,
}
use dsproj.Text.{Bytes}
use mathlib.Core.Option.{some-injective}
use dsproj.Registry.{
  Datanode, Lists, Pong, Filelist, find_file, filelist_search, walked, filenode_insert,
  datanode_insert, datanode_search, datanode_filewrite, config_text, fits100, enter_file,
  datanode_dir,
}
use dsproj.Registry.Locate.{getfiledn, fetch_datanode, node_at, replica_of}
use dsproj.Registry.Known.{IsKnown}
use dsproj.Registry.Invariant.{
  IsWellFormed, IsPlaced, filenode_insert-IsWellFormed, datanode_insert-IsWellFormed,
  datanode_insert-datanodes, datanode_filewrite-lists,
}
use dsproj.Registry.Names.{IsUnique, nil-IsUnique, enter_node-IsUnique, first_alive-IsUnique}
use dsproj.Registry.Insert.{walked-same, >>=-some}
use dsproj.Registry.Answer.{replica_of-file_replica}
use dsproj.Namenode.Kept.{IsKept}
use dsproj.Namenode.Invariant.{IsLocated, getfiledn-IsLocated}

abbrev pub IsSaved : Lists → Type 0
IsSaved st = st.config ≡ config_text st.datanodes

-- The file has the list of the datanodes, whose names are distinct.
abbrev pub IsListing : Lists → Type 0
IsListing st = IsSaved st × IsUnique st.datanodes

-- Moreover, every replica is on a registered datanode.
abbrev pub IsSound : Lists → Type 0
IsSound st = IsWellFormed st.datanodes st.files × IsListing st

filewrite-IsSaved : (st : Lists) {st' : Lists} → datanode_filewrite st ≡ some st' → IsSaved st'
unfolding datanode_filewrite
filewrite-IsSaved st h = ground arith

insert-IsListing :
    (name dn : Bytes) (st : Lists) {st' : Lists}
    → IsListing st
    → filenode_insert name (pos 0) (pos 0) dn st ≡ some st'
    → IsListing st'
unfolding filenode_insert
insert-IsListing name dn st saved h =
    let (t, _, h1) = >>=-some (fits100 dn) _ h in
    let (found, _, h2) = >>=-some (filelist_search name st) _ h1 in
    let (fs, _, h3) = >>=-some (enter_file _ name found st.files) _ h2 in
    subst IsListing (some-injective _ _ h3) saved

register-IsSaved :
    (name ip : Bytes) (alive : ℤ) (st : Lists) {st' : Lists}
    → datanode_insert name ip alive st ≡ some st'
    → IsSaved st'
unfolding datanode_insert datanode_search
register-IsSaved name ip alive st h =
    let (st2, _, written) =
      >>=-some (filenode_insert datanode_dir (pos 0) (pos 0) name _) datanode_filewrite h in
    filewrite-IsSaved st2 written

pub register-IsListing :
    (name ip : Bytes) (alive : ℤ) (st : Lists) {st' : Lists}
    → IsUnique st.datanodes
    → datanode_insert name ip alive st ≡ some st'
    → IsListing st'
register-IsListing name ip alive st unique h = (
  register-IsSaved name ip alive st h,
  subst IsUnique (sym (datanode_insert-datanodes name ip alive st h))
      (enter_node-IsUnique (record { node = name; ip = ip; alive = alive }) st.datanodes unique),
)

fetch-IsListing :
    (pong : Pong) (dns : List Datanode) (st : Lists) {o : Option ℕ} {st' : Lists}
    → st.datanodes ≡ dns
    → IsListing st
    → fetch_datanode pong st ≡ some (o, st')
    → IsListing st'
unfolding fetch_datanode
fetch-IsListing pong [] st e (saved, unique) h =
    let h1 = rw e at h in
    subst (λ (x : Option ℕ × Lists). IsListing x.1) (some-injective _ _ h1)
      (saved ∙ ap config_text e, nil-IsUnique)
fetch-IsListing pong (dn ∷ dns) st e (saved, unique) h =
    let (st1, written, h1) = >>=-some (datanode_filewrite _) _ (rw e at h) in
    let nodes = (datanode_filewrite-lists _ written).0 in
    subst (λ (x : Option ℕ × Lists). IsListing x.1) (some-injective _ _ h1)
      (
        filewrite-IsSaved _ written,
        subst IsUnique (sym nodes)
            (first_alive-IsUnique pong 0 (dn ∷ dns) (subst IsUnique e unique)),
      )

locate-IsListing :
    (pong : Pong) (name host : Bytes) (st : Lists) {r : Option Bytes} {st' : Lists}
    → IsSound st
    → getfiledn pong name host st ≡ some (r, st')
    → IsListing st'
unfolding getfiledn filelist_search
locate-IsListing pong [] host st sound h = cc
locate-IsListing pong (c ∷ name) host st {r} {st'} (formed, saved) h =
    let second : Option Bytes × Lists → Type 0 = λ x. IsListing x.1 in
    let (found, searched, h1) = >>=-some (walked st.files (find_file 0 (c ∷ name) st.files)) _ h in
    let is = walked-same st.files _ searched in
    elim (Option-cases (find_file 0 (c ∷ name) st.files)) [
      | inl new ↦
          (let ((o, st1), fetched, e) =
              >>=-some (fetch_datanode pong st) (λ x. some (node_at x.0 x.1.datanodes, x.1))
                (rw (is ∙ new) at h1) in
            subst second (some-injective _ _ e)
              (fetch-IsListing pong st.datanodes st refl saved fetched))
      | inr (i, listed) ↦
          (let (f, at, e) =
              >>=-some (get_elem? st.files i) (λ f. replica_of pong f st)
                (rw (is ∙ listed) at h1) in
            let placed =
              All-get (λ (f : Filelist). IsPlaced st.datanodes f.slots) st.files i formed at in
            let (d, located) = replica_of-file_replica pong f st placed in
            subst second (some-injective _ _ (sym located ∙ e)) saved)
    ]

pub IsSound-IsKept : IsKept IsSound (λ st dn. IsKnown st.datanodes dn)
unfolding IsLocated
IsSound-IsKept = record {
  located = λ pong name host st sound e.
      (let (formed, known) = getfiledn-IsLocated pong name host st sound.0 e in
        ((formed, locate-IsListing pong name host st sound e), known));
  entered = λ path dn st sound known e. (
    filenode_insert-IsWellFormed path dn (pos 0) (pos 0) st known sound.0 e,
    insert-IsListing path dn st sound.1 e,
  );
  registered = λ host ip st sound e. (
    (datanode_insert-IsWellFormed host ip (pos 1) st sound.0 e).0,
    register-IsListing host ip (pos 1) st sound.1.1 e,
  );
}
