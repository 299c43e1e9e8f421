-- ===== src/Startup/Contact.antt =====
-- A node that starts, and the namenode's turn on its message.
use dsproj.Common.{◌≡◌, refl, none, some, [], ◌∷◌, ◌++◌}
use dsproj.Text.{Bytes, comma}
use dsproj.Posix.{Posix, Datagram, hostname_to_ip, found, not_present, command_port}
use dsproj.RoundTrip.Exchange.{send_to-found, send_to-not_present}
use dsproj.Ping.{ping_port, ping_text, sendping}
use dsproj.Startup.{parse_arguments}

abbrev pub ping_to : Bytes → Datagram
ping_to ip = record { to_ip = ip; to_port = ping_port; payload = ping_text }

abbrev pub first_message : Bytes → Bytes → Datagram
first_message ip cmd = record { to_ip = ip; to_port = command_port; payload = cmd ++ (comma ∷ []) }

-- A client whose namenode resolves never comes to fuse_main without a write past fuse_argv: the third
-- argument does not fit its two places. Without an address, parse_arguments ends with -1.
parse_arguments_overflow :
    {S : Type 0} (os : Posix S) (argv0 argv1 argv2 : Bytes) (s : S)
    → ((ip : Bytes)
        → hostname_to_ip os argv1 ≡ found ip
        → parse_arguments os argv0 argv1 argv2 s ≡ none)
      × (hostname_to_ip os argv1 ≡ not_present
          → parse_arguments os argv0 argv1 argv2 s ≡ some (none, s))
unfolding parse_arguments sendping
parse_arguments_overflow os argv0 argv1 argv2 s = (
  λ ip there.
      rw
        (send_to-found os argv1 ping_port (λ s. some (ping_text, s)) s {text = ping_text} {s' = s}
          there refl)
        refl,
  λ missing. rw (send_to-not_present os argv1 ping_port (λ s. some (ping_text, s)) s missing) refl,
)
