-- ===== src/Ping.antt =====
-- The ping protocol (ping.c) by which a node learns that another one is alive: `sendping`, one turn of
-- the loop of `receiveping`, and the nodes that exchange pings.
pub mod Exchange
pub mod Safety
use dsproj.Common.{
  ℕ, Bool, true, false, if◌then◌else◌, Option, none, some, List, [], ◌∷◌, ◌>>=◌, ◌≡◌, ◌⊎◌, take,
}
use dsproj.Text.{Bytes, codes, c_str, same, within}
use dsproj.Posix.{Posix, Sent, failed, sent, Datagram, send_to, hostname_to_ip, found}

abbrev pub ping_port : ℕ
ping_port = 8011

abbrev pub ping_text : Bytes
ping_text = codes "ping"

abbrev pub answer_text : Bytes
answer_text = codes "fucku"

module _ {S : Type 0} (os : Posix S) where
  -- sendping also sets pingsuccess to 0, in every case.
  unfoldable pub sendping : Bytes → S → Option (Bool × Sent × S)
  sendping node s = do
    (outcome, s1) ← send_to os node ping_port (λ s. some (ping_text, s)) s
    some (false, outcome, s1)

  -- char buf[15]
  unfoldable pub sendping1 : Bytes → Bytes → S → Option (Sent × S)
  sendping1 node msg = send_to os node ping_port λ s. (within 15 msg >>= λ text. some (text, s))

  -- One turn on a message from the host that getnameinfo gives: pingsuccess behind it, and what was
  -- sent.
  unfoldable pub receiveping : Bytes → Bytes → Bool → S → Option (Bool × Option Sent × S)
  unfolding sendping1
  receiveping host msg pingsuccess s =
      let answered : Option (Bool × Option Sent × S) =
        (sendping1 host answer_text s >>= λ (outcome, s1). some (pingsuccess, some outcome, s1)) in
      within 100 (c_str (take 100 msg)) >>= λ buf.
      if same buf ping_text
      then answered
      else some (if same buf answer_text then true else pingsuccess, none, s)

abbrev pub In : {A : Type 0} → A → List A → Type 0
In x [] = ⊥
In x (y ∷ ys) = (x ≡ y) ⊎ In x ys

-- The nodes as one of them, with the address `a`, sees them: its pingsuccess, the addresses it has
-- pinged, and the datagrams that were sent so far with the address of their sender.
pub record World : Type 0 where
  pub pingsuccess : Bool
  pub asked : List Bytes
  pub net : List (Bytes × Datagram)

abbrev pub with_sent : Bytes → Option Sent → List (Bytes × Datagram) → List (Bytes × Datagram)
with_sent x (some (sent d)) net = (x, d) ∷ net
with_sent x (some failed) net = net
with_sent x none net = net

-- What may happen: the node `a` pings, another node `b` pings, or a node hears a datagram that was
-- sent to it, once, again or never. `host` is what getnameinfo gives for the sender, a name that
-- resolves to its address.
pub data Step {S : Type 0} (os : Posix S) (a : Bytes) : World → World → Type 0 where
  asks :
      (node : Bytes) (s s' : S) (w : World) (flag : Bool) (d : Datagram)
      → sendping os node s ≡ some (flag, sent d, s')
      → Step os a w (record { pingsuccess = flag; asked = d.to_ip ∷ w.asked; net = (a, d) ∷ w.net })
  fails :
      (node : Bytes) (s s' : S) (w : World) (flag : Bool)
      → sendping os node s ≡ some (flag, failed, s')
      → Step os a w (record w { pingsuccess = flag })
  other_asks :
      (b node : Bytes) (s s' : S) (w : World) (flag : Bool) (d : Datagram)
      → ¬ (b ≡ a)
      → sendping os node s ≡ some (flag, sent d, s')
      → Step os a w (record w { net = (b, d) ∷ w.net })
  hears :
      (host : Bytes) (s s' : S) (w : World) (src : Bytes) (d : Datagram) (flag : Bool)
      (reply : Option Sent)
      → In (src, d) w.net
      → d.to_ip ≡ a
      → hostname_to_ip os host ≡ found src
      → receiveping os host d.payload w.pingsuccess s ≡ some (flag, reply, s')
      → Step os a w (record { pingsuccess = flag; asked = w.asked; net = with_sent a reply w.net })
  other_hears :
      (host : Bytes) (s s' : S) (w : World) (b src : Bytes) (d : Datagram) (before flag : Bool)
      (reply : Option Sent)
      → ¬ (b ≡ a)
      → In (src, d) w.net
      → d.to_ip ≡ b
      → hostname_to_ip os host ≡ found src
      → receiveping os host d.payload before s ≡ some (flag, reply, s')
      → Step os a w (record w { net = with_sent b reply w.net })

-- The worlds that are reached from the start; global.h sets pingsuccess to 1.
pub data Reach {S : Type 0} (os : Posix S) (a : Bytes) : World → Type 0 where
  start : Reach os a (record { pingsuccess = true; asked = []; net = [] })
  next : {w w' : World} → Reach os a w → Step os a w w' → Reach os a w'
