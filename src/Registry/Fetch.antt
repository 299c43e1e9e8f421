-- ===== src/Registry/Fetch.antt =====
-- What fetch_datanode of list.c returns.
use dsproj.Common.{
  arith, ◌∙◌, ◌+◌, ◌++◌, ap, map, ℤ, pos, eq_ℤ, Bool-cases, true, false, inl, inr, ◌⊎◌, ◌≢◌, All, ℕ,
  ◌<◌, ◌≡◌, refl, Option, none, some, List, [], ◌∷◌, length, lt→ltb,
}
use dsproj.Registry.{Datanode, Lists, Pong, check_nodealive, config_text, datanode_filewrite}
use dsproj.Registry.Locate.{first_alive, fetch_datanode}

-- The list behind the walk, with the nodes that did not answer marked as dead.
abbrev pub marked : Pong → Lists → List Datanode
marked pong st = (first_alive pong 0 st.datanodes).1

written :
    (st : Lists)
    → length (config_text st.datanodes) < 10000
    → datanode_filewrite st ≡ some (record st { dlist = none; config = config_text st.datanodes })
unfolding datanode_filewrite
written st fits = rw (lt→ltb (length (config_text st.datanodes)) 10000 fits)

always_null : (o : Option ℕ) → elim o as (λ _. Option ℕ) [ none ↦ none | some i ↦ none ] ≡ none
always_null none = refl
always_null (some i) = refl

fetched :
    (pong : Pong) (dns : List Datanode) (st : Lists)
    → st.datanodes ≡ dns
    → length (config_text (first_alive pong 0 dns).1) < 10000
    → (st' : Lists) × (fetch_datanode pong st ≡ some (none, st'))
      × (st'.datanodes ≡ (first_alive pong 0 dns).1)
      × (st'.files ≡ st.files)
unfolding fetch_datanode first_alive
fetched pong [] st e fits = (record st { dlist = none }, rw e, e, refl)
fetched pong (dn ∷ dns) st e fits =
    let (found, left) = first_alive pong 0 (dn ∷ dns) in
    (
      record st { datanodes = left; dlist = none; config = config_text left },
      rw (e, written (record st { datanodes = left; dlist = found }) fits, always_null found),
      refl,
      refl,
    )

abbrev pub dead : Datanode → Datanode
dead dn = record dn { alive = pos 0 }

-- A node that the walk goes past, and a list at which it stops.
abbrev pub IsSilent : Pong → Datanode → Type 0
IsSilent pong dn = (dn.alive ≡ pos 0) ⊎ (check_nodealive pong dn.node ≡ false)

abbrev pub IsAnswering : Pong → List Datanode → Type 0
IsAnswering pong [] = Unit
IsAnswering pong (dn ∷ dns) = (dn.alive ≢ pos 0) × (check_nodealive pong dn.node ≡ true)

eq_ℤ-zero : (v : ℤ) → eq_ℤ v (pos 0) ≡ true → v ≡ pos 0
eq_ℤ-zero v h = ground arith

eq_ℤ-other : (v : ℤ) → eq_ℤ v (pos 0) ≡ false → v ≢ pos 0
eq_ℤ-other v h e = absurd (ground arith)

dead_same : (dn : Datanode) → dn.alive ≡ pos 0 → dn ≡ dead dn
dead_same dn e = ap (λ v. record dn { alive = v }) e

first_alive-dead :
    (pong : Pong) (i : ℕ) (dns : List Datanode)
    → (before after : List Datanode) × (dns ≡ before ++ after)
      × ((first_alive pong i dns).1 ≡ map dead before ++ after)
      × All (IsSilent pong) before
      × IsAnswering pong after
unfolding first_alive
first_alive-dead pong i [] = ([], [], refl, refl, tt, tt)
first_alive-dead pong i (dn ∷ dns) =
    let (before, after, whole, left, silent, answers) = first_alive-dead pong (i + 1) dns in
    elim (Bool-cases (eq_ℤ dn.alive (pos 0))) [
      | inl zero_alive ↦ (
        dn ∷ before,
        after,
        ap (λ r. dn ∷ r) whole,
        rw (zero_alive, left)
            (ap (λ d. d ∷ (map dead before ++ after))
              (dead_same dn (eq_ℤ-zero dn.alive zero_alive))),
        (inl (eq_ℤ-zero dn.alive zero_alive), silent),
        answers,
      )
      | inr some_alive ↦ elim (Bool-cases (check_nodealive pong dn.node)) [
        | inl pings ↦ (
          [],
          dn ∷ dns,
          refl,
          rw (some_alive, pings) refl,
          tt,
          (eq_ℤ-other dn.alive some_alive, pings),
        )
        | inr no_ping ↦ (
          dn ∷ before,
          after,
          ap (λ r. dn ∷ r) whole,
          rw (some_alive, no_ping, left) refl,
          (inr no_ping, silent),
          answers,
        )
      ]
    ]

-- Whatever datanodes are listed and answer, fetch_datanode gives NULL: it returns, with `alive`
-- set to 0 for all nodes before the first that was thought alive and answers, and the list from that
-- node on and the files as they are. The nodes before were known as dead or do not answer, and the text
-- of the list must fit its buffer.
pub fetch_datanode_null :
    (pong : Pong) (st : Lists)
    → length (config_text (marked pong st)) < 10000
    → (st' : Lists) × (fetch_datanode pong st ≡ some (none, st'))
      × ((before after : List Datanode) × (st.datanodes ≡ before ++ after)
          × (st'.datanodes ≡ map dead before ++ after)
          × All (IsSilent pong) before
          × IsAnswering pong after)
      × (st'.files ≡ st.files)
unfolding fetch_datanode datanode_filewrite
fetch_datanode_null pong st fits =
    let (st', returned, left, files) = fetched pong st.datanodes st refl fits in
    let (before, after, whole, shape, silent, answers) = first_alive-dead pong 0 st.datanodes in
    (st', returned, (before, after, whole, left ∙ shape, silent, answers), files)
