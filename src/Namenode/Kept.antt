-- ===== src/Namenode/Kept.antt =====
-- What every turn of receivecommand_namenode keeps, from what the operations of the lists keep.
use dsproj.Common.{
  pos, true, false, Option, none, some, ◌∷◌, ◌++◌, ◌≡◌, ◌>>=◌, refl, subst, Bool-cases, inl, inr,
  take,
}
use dsproj.Text.{Bytes, codes, comma, c_str, strtok, within, same}
use mathlib.Core.Option.{some-injective}
use dsproj.Posix.{
  Posix, hostname_to_ip, HostIp, not_present, not_written, found, sent, failed, Sent,
}
use dsproj.Registry.{Lists, Pong, filenode_insert, datanode_insert}
use dsproj.Registry.Locate.{getfiledn}
use dsproj.Registry.Insert.{>>=-some}
use dsproj.Client.{sendcommand}
use dsproj.Reply.{sendresponse_statfs}
use dsproj.Dispatch.{Turn}
use dsproj.Namenode.{
  is_one_of, entering_commands, relayed_commands, receivecommand_namenode, relay, after_relay,
  answer_command, junk_response,
}

-- A property of the lists that the operations keep: getfiledn, which also gives a datanode that may be
-- entered, the entering of a path on it, and the registration of a datanode.
pub record IsKept (Inv : Lists → Type 0) (Ok : Lists → Bytes → Type 0) : Type 0 where
  pub located :
      (pong : Pong) (name host : Bytes) (st : Lists) {r : Option Bytes} {st' : Lists}
      → Inv st
      → getfiledn pong name host st ≡ some (r, st')
      → Inv st' × ((dn : Bytes) → r ≡ some dn → Ok st' dn)
  pub entered :
      (path dn : Bytes) (st : Lists) {st' : Lists}
      → Inv st
      → Ok st dn
      → filenode_insert path (pos 0) (pos 0) dn st ≡ some st'
      → Inv st'
  pub registered :
      (host ip : Bytes) (st : Lists) {st' : Lists}
      → Inv st
      → datanode_insert host ip (pos 1) st ≡ some st'
      → Inv st'

module _ {S : Type 0} (os : Posix S) (Inv : Lists → Type 0) (Ok : Lists → Bytes → Type 0)
    (kept : IsKept Inv Ok) where
  after_relay-Inv :
      (cmd path dn : Bytes) (lists : Lists) (outcome : Sent × S) {turn : Turn} {s' : S}
      → Inv lists
      → Ok lists dn
      → after_relay os cmd path dn lists outcome ≡ some (turn, s')
      → Inv turn.lists
  unfolding after_relay
  after_relay-Inv cmd path dn lists (failed, s) holds known h =
      subst (λ (y : Turn × S). Inv y.0.lists) (some-injective _ _ h) holds
  after_relay-Inv cmd path dn lists (sent d, s) holds known h =
      elim (Bool-cases (is_one_of cmd entering_commands)) [
        | inl enters ↦
            (let (lists', inserted, e) =
                >>=-some (filenode_insert path (pos 0) (pos 0) dn lists) _ (rw enters at h) in
              subst (λ (y : Turn × S). Inv y.0.lists) (some-injective _ _ e)
                (kept.entered path dn lists holds known inserted))
        | inr reads ↦
            subst (λ (y : Turn × S). Inv y.0.lists) (some-injective _ _ (rw reads at h)) holds
      ]

  relayed_to-Inv :
      (cmd host buf2 path : Bytes) (dpath : Option Bytes) (lists : Lists) (s : S) {x : Turn × S}
      → Inv lists × ((dn : Bytes) → dpath ≡ some dn → Ok lists dn)
      → elim dpath as (λ _. Option (Turn × S)) [
        | none ↦ junk_response os cmd host s >>= λ r.
            some (record { running = true; reply = some r.0; lists = lists }, r.1)
        | some dn ↦
            sendcommand os dn buf2 cmd s >>= λ outcome. after_relay os cmd path dn lists outcome
      ]
        ≡ some x
      → Inv x.0.lists
  relayed_to-Inv cmd host buf2 path none lists s located h =
      let (r, _, e) = >>=-some (junk_response os cmd host s) _ h in
      subst (λ (y : Turn × S). Inv y.0.lists) (some-injective _ _ e) located.0
  relayed_to-Inv cmd host buf2 path (some dn) lists s located h =
      let (outcome, _, e) = >>=-some (sendcommand os dn buf2 cmd s) _ h in
      after_relay-Inv cmd path dn lists outcome located.0 (located.1 dn refl) e

  relay-Inv :
      (pong : Pong) (host buf2 cmd path : Bytes) (lists : Lists) (s : S) {x : Turn × S}
      → Inv lists
      → relay os pong host buf2 cmd path lists s ≡ some x
      → Inv x.0.lists
  unfolding relay
  relay-Inv pong host buf2 cmd path lists s holds h =
      let ((dpath, lists1), located, e) = >>=-some (getfiledn pong path host lists) _ h in
      relayed_to-Inv cmd host buf2 path dpath lists1 s
        (kept.located pong path host lists holds located) e

  registered-Inv :
      (a : HostIp) (host : Bytes) (lists : Lists) (s : S) {x : Turn × S}
      → Inv lists
      → elim a as (λ _. Option (Turn × S)) [
        | not_present ↦ some (record { running = false; reply = none; lists = lists }, s)
        | not_written ↦ none
        | found ip ↦
            (datanode_insert host ip (pos 1) lists >>= λ lists'.
            some (record { running = true; reply = none; lists = lists' }, s))
      ]
        ≡ some x
      → Inv x.0.lists
  registered-Inv not_present host lists s holds h =
      subst (λ (y : Turn × S). Inv y.0.lists) (some-injective _ _ h) holds
  registered-Inv not_written host lists s holds h = cc
  registered-Inv (found ip) host lists s holds h =
      let (lists', inserted, e) = >>=-some (datanode_insert host ip (pos 1) lists) _ h in
      subst (λ (y : Turn × S). Inv y.0.lists) (some-injective _ _ e)
        (kept.registered host ip lists holds inserted)

  answer_command-Inv :
      (host cmd rest : Bytes) (lists : Lists) (s : S) {x : Turn × S}
      → Inv lists
      → answer_command os host cmd rest lists s ≡ some x
      → Inv x.0.lists
  unfolding answer_command
  answer_command-Inv host cmd rest lists s holds h =
      elim (Bool-cases (same cmd (codes "datanode"))) [
        | inl joins ↦ registered-Inv (hostname_to_ip os host) host lists s holds (rw joins at h)
        | inr other ↦ elim (Bool-cases (same cmd (codes "statfs"))) [
          | inl asks ↦
              (let (t, _, h1) = >>=-some (strtok comma rest) _ (rw (other, asks) at h) in
                let (r, _, e) = >>=-some (sendresponse_statfs os host t.0 s) _ h1 in
                subst (λ (y : Turn × S). Inv y.0.lists) (some-injective _ _ e) holds)
          | inr ignored ↦
              subst (λ (y : Turn × S). Inv y.0.lists)
                (some-injective _ _ (rw (other, ignored) at h)) holds
        ]
      ]

  -- A turn on any message keeps the property.
  pub receivecommand_namenode-Inv :
      (pong : Pong) (host msg : Bytes) (lists : Lists) (s : S) {turn : Turn} {s' : S}
      → Inv lists
      → receivecommand_namenode os pong host msg lists s ≡ some (turn, s')
      → Inv turn.lists
  unfolding receivecommand_namenode
  receivecommand_namenode-Inv pong host msg lists s {turn} {s'} holds h =
      let (buf1, _, h1) = >>=-some (within 1000 (c_str (take 1000 msg))) _ h in
      let (buf2, _, h2) = >>=-some (within 1000 (host ++ (comma ∷ buf1))) _ h1 in
      let ((cmd, rest), _, h3) = >>=-some (strtok comma buf1) _ h2 in
      let turned : Inv turn.lists = elim (Bool-cases (is_one_of cmd relayed_commands)) [
        | inl passes ↦
            (let (t, _, h4) = >>=-some (strtok comma rest) _ (rw passes at h3) in
              relay-Inv pong host buf2 cmd t.0 lists s holds h4)
        | inr stays ↦ answer_command-Inv host cmd rest lists s holds (rw stays at h3)
      ] in
      turned
