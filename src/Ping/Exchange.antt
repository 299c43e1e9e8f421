-- ===== src/Ping/Exchange.antt =====
-- A ping, its answer, and the flag that the answer sets: two nodes through `sendping` and `receiveping`.
use dsproj.Common.{Bool, true, false, none, some, ◌≡◌, refl, arith}
use dsproj.Text.{Bytes}
use dsproj.Posix.{Posix, sent, Datagram, send_to, hostname_to_ip, found}
use dsproj.Ping.{ping_port, ping_text, answer_text, sendping, sendping1, receiveping}

datagram : Bytes → Bytes → Datagram
datagram to text = record { to_ip = to; to_port = ping_port; payload = text }

-- If the name that `a` pings resolves to the address of `b`, and the name that `b` sees of `a` resolves
-- to the address of `a`, then sendping sends a datagram and clears the flag; whatever the
-- flag of `b` is, receiveping keeps it there and sends an answer to the address of `a`; and
-- receiveping at `a`, whatever its flag has become, sets it and sends nothing. All datagrams go to the
-- port of the pings.
pub receiveping-sendping :
    {A B : Type 0} (os_a : Posix A) (os_b : Posix B) (node a_ip b_ip a_host b_host : Bytes)
    (s s2 : A) (t : B) (flag_a flag_b : Bool)
    → hostname_to_ip os_a node ≡ found b_ip
    → hostname_to_ip os_b a_host ≡ found a_ip
    → (ping answer : Datagram) × (sendping os_a node s ≡ some (false, sent ping, s))
      × (ping.to_ip ≡ b_ip)
      × (ping.to_port ≡ ping_port)
      × (receiveping os_b a_host ping.payload flag_b t ≡ some (flag_b, some (sent answer), t))
      × (answer.to_ip ≡ a_ip)
      × (answer.to_port ≡ ping_port)
      × (receiveping os_a b_host answer.payload flag_a s2 ≡ some (true, none, s2))
unfolding datagram sendping receiveping sendping1 send_to
receiveping-sendping os_a os_b node a_ip b_ip a_host b_host s s2 t flag_a flag_b hb ha = (
  datagram b_ip ping_text,
  datagram a_ip answer_text,
  ground (arith, hb),
  refl,
  refl,
  ground (arith, ha),
  refl,
  refl,
  refl,
)
