-- ===== src/Run/Safety.antt =====
-- What holds in every state that a namenode process reaches.
use dsproj.Common.{
  ℕ, ◌≡◌, ◌>>=◌, refl, subst, Bool, true, false, Bool-cases, inl, inr, Option, some, none, List, [],
  ◌∷◌, ◌++◌, get_elem?, length, take, leb, defined_if, ◌==◌, ◌||◌, ◌-◌, if◌then◌else◌,
}
use dsproj.Text.{Bytes, c_str, comma, codes, same, strtok, within, number}
use mathlib.Core.Option.{some-injective}
use dsproj.Posix.{Posix, Sent}
use dsproj.Registry.{Lists, Pong, Filelist, find_file, datanode_insert, config_text}
use dsproj.Registry.Locate.{getfiledn}
use dsproj.Registry.Answer.{file_replica, getfiledn-file_replica}
use dsproj.Registry.Config.{
  Start, exited, started, initdatanodelist, readdnconfig, load_lines, read_line, fgets_lines,
  onto_line, no_lists, mkdir_fails,
}
use dsproj.Registry.Insert.{>>=-some}
use dsproj.Registry.Invariant.{IsWellFormed, datanode_insert-IsWellFormed}
use dsproj.Registry.Names.{IsUnique, nil-IsUnique, IsUnique-IsDistinct}
use dsproj.Registry.Reload.{IsDistinct}
use dsproj.Namenode.Kept.{receivecommand_namenode-Inv}
use dsproj.Namenode.Saved.{IsSound, register-IsListing, IsSound-IsKept}
use dsproj.Monitor.{
  Service, monitorcommand_namenode, dnlist_text, sendlist_text, sendrep_text, datanode_sendlist,
  senddnlist, send_ack_rep,
}
use dsproj.Run.{Reach, start, command, monitor}

load_line-IsSound :
    (line : Bytes) (lines : List Bytes) (st : Lists) {st' : Lists}
    → IsWellFormed st.datanodes st.files
    → IsUnique st.datanodes
    → load_lines (line ∷ lines) st ≡ some st'
    → (st1 : Lists) × IsSound st1 × (load_lines lines st1 ≡ some st')
unfolding load_lines
load_line-IsSound line lines st formed unique h =
    let ((node, ip, alive), _, h1) = >>=-some (read_line line) _ h in
    let (st1, inserted, h2) = >>=-some (datanode_insert node ip alive st) _ h1 in
    (
      st1,
      (
        (datanode_insert-IsWellFormed node ip alive st formed inserted).0,
        register-IsListing node ip alive st unique inserted,
      ),
      h2,
    )

load_lines-IsSound :
    (lines : List Bytes) (st : Lists) {st' : Lists}
    → IsSound st
    → load_lines lines st ≡ some st'
    → IsSound st'
load_lines-IsSound [] st sound h = unfold load_lines in (subst IsSound (some-injective _ _ h) sound)
load_lines-IsSound (line ∷ lines) st sound h =
    let (st1, sound1, h1) = load_line-IsSound line lines st sound.0 sound.1.1 h in
    load_lines-IsSound lines st1 sound1 h1

onto_line_filled :
    (c : ℕ) (ls : List Bytes) → (l : Bytes) × (rest : List Bytes) × (onto_line c ls ≡ l ∷ rest)
onto_line_filled c [] = (c ∷ [], [], refl)
onto_line_filled c (l ∷ ls) = (c ∷ l, ls, refl)

-- A text that is not empty has a line.
fgets_lines_filled :
    (left c : ℕ) (s : Bytes)
    → (l : Bytes) × (rest : List Bytes) × (fgets_lines left (c ∷ s) ≡ l ∷ rest)
unfolding fgets_lines
fgets_lines_filled left c s = elim (Bool-cases (c == b'\n' || left == 1)) [
  | inl ends ↦ (c ∷ [], fgets_lines 4095 s, rw ends refl)
  | inr goes_on ↦
      (let (l, rest, e) = onto_line_filled c (fgets_lines (left - 1) s) in (l, rest, rw goes_on e))
]

-- With no line the file is empty, and so is its text.
readdnconfig-IsSound :
    (block : ℕ) (text : Bytes) {st' : Lists}
    → readdnconfig block text (no_lists text) ≡ some st'
    → IsSound st'
unfolding readdnconfig
readdnconfig-IsSound block [] {st'} h =
    let (u, _, h1) = >>=-some (defined_if (leb 0 block)) _ h in
    unfold load_lines in
    unfold fgets_lines in (subst IsSound (some-injective _ _ h1) (tt, (refl, nil-IsUnique)))
readdnconfig-IsSound block (c ∷ text) {st'} h =
    let (u, _, h1) = >>=-some (defined_if (leb (length (c ∷ text)) block)) _ h in
    let (l, rest, e) = fgets_lines_filled 4095 c text in
    let (st1, sound, h2) =
      load_line-IsSound l rest (no_lists (c ∷ text)) tt nil-IsUnique (rw e at h1) in
    load_lines-IsSound rest st1 sound h2

-- Lists that the process starts with.
IsSoundStart : Start → Type 0
IsSoundStart exited = Unit
IsSoundStart (started lists) = IsSound lists

module _ {S : Type 0} (os : Posix S) where
  loaded-IsSound :
      (there : Bool) (block : ℕ) (text : Bytes) (s3 : S) {x : Start × S}
      → ((if there then readdnconfig block text (no_lists text) else some (no_lists []))
          >>= λ lists. some (started lists, s3))
        ≡ some x
      → IsSoundStart x.0
  unfolding IsSoundStart
  loaded-IsSound true block text s3 h =
      let (lists, loaded, h1) = >>=-some (readdnconfig block text (no_lists text)) _ h in
      subst (λ (y : Start × S). IsSoundStart y.0) (some-injective _ _ h1)
        (readdnconfig-IsSound block text loaded)
  loaded-IsSound false block text s3 h =
      subst (λ (y : Start × S). IsSoundStart y.0) (some-injective _ _ h) (tt, (refl, nil-IsUnique))

  initdatanodelist-IsSound :
      (user : Option Bytes) (block : ℕ) (text : Bytes) (s : S) {x : Start × S}
      → initdatanodelist os user block text s ≡ some x
      → IsSoundStart x.0
  unfolding initdatanodelist IsSoundStart
  initdatanodelist-IsSound none block text s h =
      subst (λ (y : Start × S). IsSoundStart y.0) (some-injective _ _ h) tt
  initdatanodelist-IsSound (some user) block text s {x} h =
      let buf = codes "/tmp/.cs545/" in
      let (failed_first, s1) = mkdir_fails os buf s in
      elim (Bool-cases failed_first) [
        | inl gone ↦
            subst (λ (y : Start × S). IsSoundStart y.0) (some-injective _ _ (rw gone at h)) tt
        | inr made ↦
            (let (folder, _, h1) = >>=-some (within 100 (buf ++ user)) _ (rw made at h) in
              let (failed_second, s2) = mkdir_fails os folder s1 in
              elim (Bool-cases failed_second) [
                | inl gone ↦
                    subst (λ (y : Start × S). IsSoundStart y.0) (some-injective _ _ (rw gone at h1))
                      tt
                | inr ready ↦
                    (let (file, _, h2) =
                        >>=-some (within 120 (folder ++ codes "/dnconfig")) _ (rw ready at h1) in
                      loaded-IsSound _ block text _ h2)
              ])
      ]

  monitor-IsSound :
      (host msg : Bytes) (sv : Service) (s : S) {reply : Option Sent} {sv' : Service} {s' : S}
      → IsSound sv.lists
      → monitorcommand_namenode os host msg sv s ≡ some (reply, sv', s')
      → IsSound sv'.lists
  unfolding monitorcommand_namenode datanode_sendlist
  monitor-IsSound host msg sv s {reply} {sv'} {s'} sound h =
      let kept : Option Sent × Service × S → Type 0 = λ x. IsSound x.1.lists in
      let (buf, _, h1) = >>=-some (within 1000 (c_str (take 1000 msg))) _ h in
      let ((cmd, rest), _, h2) = >>=-some (strtok comma buf) _ h1 in
      elim (Bool-cases (same cmd dnlist_text)) [
        | inl lists ↦
            (let ((dnbuf, st1), sending, h3) =
                >>=-some (datanode_sendlist sv.lists) _ (rw lists at h2) in
              let (u, _, told) =
                >>=-some (within 10000 (sendlist_text sv.lists.datanodes)) _ sending in
              let (out, _, h4) = >>=-some (senddnlist os host dnbuf s) _ h3 in
              subst kept (some-injective _ _ h4)
                (subst (λ (y : Bytes × Lists). IsSound y.1) (some-injective _ _ told) sound))
        | inr other ↦ elim (Bool-cases (same cmd sendrep_text)) [
          | inl counts ↦
              (let (v, _, h3) = >>=-some (number rest) _ (rw (other, counts) at h2) in
                let (out, _, h4) = >>=-some (send_ack_rep os host v.0 s) _ h3 in
                subst kept (some-injective _ _ h4) sound)
          | inr ignored ↦ subst kept (some-injective _ _ (rw (other, ignored) at h2)) sound
        ]
      ]

  reached : {sv : Service} → Reach os sv → IsSound sv.lists
  unfolding IsSoundStart
  reached (start user block text s s' lists h) = initdatanodelist-IsSound user block text s h
  reached (command pong host msg s s' turn sv r h on) =
      receivecommand_namenode-Inv os IsSound _ IsSound-IsKept pong host msg sv.lists s (reached r) h
  reached (monitor host msg s s' reply sv sv' r h) = monitor-IsSound host msg sv s (reached r) h

  -- In every state that a namenode process reaches from its start, by any sequence of turns of its two
  -- threads on any messages, whichever datanodes answer their pings: every replica is on a registered
  -- datanode, the datanodes' file holds the list of the datanodes, and no name is listed twice.
  pub Reach-IsSound :
      (sv : Service)
      → Reach os sv
      → IsWellFormed sv.lists.datanodes sv.lists.files
        × (sv.lists.config ≡ config_text sv.lists.datanodes)
        × IsDistinct [] sv.lists.datanodes
  Reach-IsSound sv r =
      let (formed, (saved, unique)) = reached r in
      (formed, saved, IsUnique-IsDistinct sv.lists.datanodes unique)

  -- In every such state the choice of a datanode for a listed file is defined: getfiledn returns a
  -- replica in step whose datanode answers if there is one, else any replica whose datanode answers,
  -- else NULL, and changes only the variable `dlist`.
  pub Reach-getfiledn :
      (sv : Service) (pong : Pong) (c : ℕ) (name host : Bytes) (i : ℕ) (f : Filelist)
      → Reach os sv
      → find_file 0 (c ∷ name) sv.lists.files ≡ some i
      → get_elem? sv.lists.files i ≡ some f
      → (d : Option ℕ) × (getfiledn pong (c ∷ name) host sv.lists
          ≡ some (file_replica pong f.slots, record sv.lists { dlist = d }))
  Reach-getfiledn sv pong c name host i f r listed at =
      getfiledn-file_replica pong c name host sv.lists i f (reached r).0 listed at
