-- ===== src/Ping/Safety.antt =====
-- What an answer proves: the flag pingsuccess of a node is set only behind the answer of a node that
-- it has pinged.
use dsproj.Common.{
  Bool, true, false, Option, none, some, List, [], ◌∷◌, ◌≡◌, ◌≢◌, ◌⊎◌, inl, inr, refl, sym, subst,
  ◌∙◌, All, All-map, arith,
}
use dsproj.Text.{Bytes}
use dsproj.Posix.{Posix, Sent, failed, sent, Datagram, send_to, hostname_to_ip, found}
use dsproj.Ping.{
  ping_text, answer_text, sendping, sendping1, receiveping, In, World, with_sent, Step, asks, fails,
  other_asks, hears, other_hears, Reach, start, next,
}

sendping-payload :
    {S : Type 0} (os : Posix S) (node : Bytes) (s : S) {flag : Bool} {d : Datagram} {s' : S}
    → sendping os node s ≡ some (flag, sent d, s')
    → (flag ≡ false) × (d.payload ≡ ping_text)
unfolding sendping send_to
sendping-payload os node s e = ground arith

sendping-flag :
    {S : Type 0} (os : Posix S) (node : Bytes) (s : S) {flag : Bool} {o : Sent} {s' : S}
    → sendping os node s ≡ some (flag, o, s')
    → flag ≡ false
unfolding sendping send_to
sendping-flag os node s e = ground arith

receiveping-ping :
    {S : Type 0} (os : Posix S) (host src payload : Bytes) (before : Bool) (s : S) {flag : Bool}
    {reply : Option Sent} {s' : S}
    → payload ≡ ping_text
    → hostname_to_ip os host ≡ found src
    → receiveping os host payload before s ≡ some (flag, reply, s')
    → (flag ≡ before)
      × ((d : Datagram) → reply ≡ some (sent d) → (d.payload ≡ answer_text) × (d.to_ip ≡ src))
unfolding receiveping sendping1 send_to
receiveping-ping os host src payload before s p h e =
    (ground (arith, p, h), λ d r. ground (arith, p, h))

receiveping-answer :
    {S : Type 0} (os : Posix S) (host payload : Bytes) (before : Bool) (s : S) {flag : Bool}
    {reply : Option Sent} {s' : S}
    → payload ≡ answer_text
    → receiveping os host payload before s ≡ some (flag, reply, s')
    → reply ≡ none
unfolding receiveping sendping1 send_to
receiveping-answer os host payload before s p e = ground (arith, p)

-- A ping that the node `a` has sent goes to an address it has asked, and an answer for it comes from
-- one.
IsKnown : Bytes → List Bytes → Bytes × Datagram → Type 0
IsKnown a asked (x, d) =
    ((d.payload ≡ ping_text) × (x ≡ a → In d.to_ip asked))
    ⊎ ((d.payload ≡ answer_text) × (d.to_ip ≡ a → In x asked))

IsKnown-asked :
    (a to : Bytes) (asked : List Bytes) (p : Bytes × Datagram)
    → IsKnown a asked p
    → IsKnown a (to ∷ asked) p
unfolding IsKnown
IsKnown-asked a to asked (x, d) (inl (e, h)) = inl (e, λ q. inr (h q))
IsKnown-asked a to asked (x, d) (inr (e, h)) = inr (e, λ q. inr (h q))

All-In : {A : Type 0} (P : A → Type 0) (x : A) (l : List A) → All P l → In x l → P x
All-In P x [] h m = absurd m
All-In P x (y ∷ l) h (inl e) = subst P (sym e) h.0
All-In P x (y ∷ l) h (inr m) = All-In P x l h.1 m

-- An answer of a node that `a` has pinged is among the messages for `a`.
abbrev IsAnswered : Bytes → World → Type 0
IsAnswered a w =
    (src : Bytes) × (d : Datagram) × In (src, d) w.net
    × (d.to_ip ≡ a)
    × (d.payload ≡ answer_text)
    × In src w.asked

IsSafe : Bytes → World → Type 0
IsSafe a w = All (IsKnown a w.asked) w.net × (w.pingsuccess ≡ true → w.asked ≢ [] → IsAnswered a w)

with_sent-IsKnown :
    (a x : Bytes) (asked : List Bytes) (reply : Option Sent) (net : List (Bytes × Datagram))
    → All (IsKnown a asked) net
    → ((d : Datagram) → reply ≡ some (sent d) → IsKnown a asked (x, d))
    → All (IsKnown a asked) (with_sent x reply net)
with_sent-IsKnown a x asked none net known h = known
with_sent-IsKnown a x asked (some failed) net known h = known
with_sent-IsKnown a x asked (some (sent d)) net known h = (h d refl, known)

In-with_sent :
    (x : Bytes) (reply : Option Sent) (net : List (Bytes × Datagram)) (p : Bytes × Datagram)
    → In p net
    → In p (with_sent x reply net)
In-with_sent x none net p m = m
In-with_sent x (some failed) net p m = m
In-with_sent x (some (sent d)) net p m = inr m

-- The answer to a ping which reached the node `x` from the known message `(src, d)`.
answer-IsKnown :
    (a x src : Bytes) (asked : List Bytes) (d answer : Datagram)
    → d.to_ip ≡ x
    → (src ≡ a → In d.to_ip asked)
    → (answer.payload ≡ answer_text) × (answer.to_ip ≡ src)
    → IsKnown a asked (x, answer)
unfolding IsKnown
answer-IsKnown a x src asked d answer to f (p, back) =
    inr (p, λ here. subst (λ y. In y asked) to (f (sym back ∙ here)))

-- A message is heard at the node `x`: the messages stay known, and an answer leaves no reply.
heard :
    {S : Type 0} (os : Posix S) (a x host src : Bytes) (asked : List Bytes)
    (net : List (Bytes × Datagram)) (d : Datagram) (before : Bool) (s : S) {flag : Bool}
    {reply : Option Sent} {s' : S}
    → All (IsKnown a asked) net
    → In (src, d) net
    → d.to_ip ≡ x
    → hostname_to_ip os host ≡ found src
    → receiveping os host d.payload before s ≡ some (flag, reply, s')
    → All (IsKnown a asked) (with_sent x reply net)
      × ((flag ≡ before) ⊎ ((d.payload ≡ answer_text) × (d.to_ip ≡ a → In src asked)))
unfolding IsKnown
heard os a x host src asked net d before s {reply} known m to h e =
    elim (All-In (IsKnown a asked) (src, d) net known m) [
      | inl (p, f) ↦
          (let r = receiveping-ping os host src d.payload before s p h e in
            (
              with_sent-IsKnown a x asked reply net known
                  (λ answer q. answer-IsKnown a x src asked d answer to f (r.1 answer q)),
              inl r.0,
            ))
      | inr (p, f) ↦ (
        with_sent-IsKnown a x asked reply net known
            (λ answer q. cc (receiveping-answer os host d.payload before s p e)),
        inr (p, f),
      )
    ]

-- A reply more in the network leaves an answer where it is.
IsAnswered-with_sent :
    (a x : Bytes) (reply : Option Sent) (flag : Bool) (w : World)
    → IsAnswered a w
    → IsAnswered a (record { pingsuccess = flag; asked = w.asked; net = with_sent x reply w.net })
IsAnswered-with_sent a x reply flag w (src, d, m, to, p, asked) =
    (src, d, In-with_sent x reply w.net (src, d) m, to, p, asked)

Step-IsSafe :
    {S : Type 0} (os : Posix S) (a : Bytes) {w w' : World}
    → Step os a w w'
    → IsSafe a w
    → IsSafe a w'
unfolding IsSafe IsKnown
Step-IsSafe os a (asks node s s' w flag d e) safe =
    (let p = sendping-payload os node s e in
      (
        (inl (p.1, λ _. inl refl), All-map _ _ (IsKnown-asked a d.to_ip w.asked) w.net safe.0),
        λ t _. cc p.0,
      ))
Step-IsSafe os a (fails node s s' w flag e) safe = (safe.0, λ t _. cc (sendping-flag os node s e))
Step-IsSafe os a (other_asks b node s s' w flag d o e) safe = (
  (inl ((sendping-payload os node s e).1, λ q. absurd (o q)), safe.0),
  λ t ne. IsAnswered-with_sent a b (some (sent d)) w.pingsuccess w (safe.1 t ne),
)
Step-IsSafe os a (hears host s s' w src d flag reply m to h e) safe =
    (let r = heard os a a host src w.asked w.net d w.pingsuccess s safe.0 m to h e in
      (
        r.0,
        λ t ne. elim r.1 [
          | inl same_flag ↦ IsAnswered-with_sent a a reply flag w (safe.1 (sym same_flag ∙ t) ne)
          | inr (p, f) ↦ (src, d, In-with_sent a reply w.net (src, d) m, to, p, f to)
        ],
      ))
Step-IsSafe os a (other_hears host s s' w b src d before flag reply o m to h e) safe = (
  (heard os a b host src w.asked w.net d before s safe.0 m to h e).0,
  λ t ne. IsAnswered-with_sent a b reply w.pingsuccess w (safe.1 t ne),
)

Reach-IsSafe : {S : Type 0} (os : Posix S) (a : Bytes) {w : World} → Reach os a w → IsSafe a w
unfolding IsSafe
Reach-IsSafe os a start = (tt, λ t ne. absurd (ne refl))
Reach-IsSafe os a (next r st) = Step-IsSafe os a st (Reach-IsSafe os a r)

-- In every world that the nodes reach from the start by sending pings and hearing datagrams, in any
-- order, repeatedly or not at all: if the node `a` has sent a ping and its flag pingsuccess is set, then
-- an answer was sent to it by a node whose address it has pinged.
pub Reach-IsAnswered :
    {S : Type 0} (os : Posix S) (a : Bytes) (w : World)
    → Reach os a w
    → w.pingsuccess ≡ true
    → w.asked ≢ []
    → (src : Bytes) × (d : Datagram) × In (src, d) w.net
      × (d.to_ip ≡ a)
      × (d.payload ≡ answer_text)
      × In src w.asked
unfolding IsSafe
Reach-IsAnswered os a w r t ne = (Reach-IsSafe os a r).1 t ne
