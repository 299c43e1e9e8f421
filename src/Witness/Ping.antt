-- ===== src/Witness/Ping.antt =====
-- Concrete pings.
use dsproj.Common.{true, false, some, none, [], ◌∷◌, ◌≡◌, inl, refl}
use dsproj.Text.{Bytes, codes}
use dsproj.Posix.{Datagram, hostname_to_ip, sent, send_to}
use dsproj.Ping.{
  ping_port, answer_text, sendping, sendping1, receiveping, In, World, asks, hears, Reach, start,
  next,
}
use dsproj.Ping.Safety.{Reach-IsAnswered}
use dsproj.Ping.Exchange.{receiveping-sendping}
use dsproj.Witness.{plain, node_name}

abbrev ip : Bytes
ip = codes "10.0.0.1"

abbrev packet : Bytes → Datagram
packet text = record { to_ip = ip; to_port = 8011; payload = text }

-- The node pings itself, hears the ping, and then its answer.
abbrev last : World
last = record {
  pingsuccess = true;
  asked = ip ∷ [];
  net = (ip, packet (codes "fucku")) ∷ (ip, packet (codes "ping")) ∷ [];
}

last_reached : Reach plain ip last
unfolding sendping sendping1 receiveping send_to hostname_to_ip
last_reached =
    next
      (next (next start (asks node_name 0 0 _ false (packet (codes "ping")) refl)) (
        hears node_name 0 0 _ ip (packet (codes "ping")) false
          (some (sent (packet (codes "fucku")))) (inl refl) refl refl refl))
      (hears node_name 0 0 _ ip (packet (codes "fucku")) true none (inl refl) refl refl refl)

Reach-IsAnswered_example :
    (src : Bytes) × (d : Datagram) × In (src, d) last.net
    × (d.to_ip ≡ ip)
    × (d.payload ≡ answer_text)
    × In src last.asked
Reach-IsAnswered_example = Reach-IsAnswered plain ip last last_reached refl (λ e. cc)

receiveping-sendping_example :
    (ping answer : Datagram) × (sendping plain node_name 0 ≡ some (false, sent ping, 0))
    × (ping.to_ip ≡ ip)
    × (ping.to_port ≡ ping_port)
    × (receiveping plain (codes "n2") ping.payload false 7 ≡ some (false, some (sent answer), 7))
    × (answer.to_ip ≡ ip)
    × (answer.to_port ≡ ping_port)
    × (receiveping plain node_name answer.payload false 1 ≡ some (true, none, 1))
unfolding hostname_to_ip
receiveping-sendping_example =
    receiveping-sendping plain plain node_name ip ip (codes "n2") node_name 0 1 7 false false refl
      refl
