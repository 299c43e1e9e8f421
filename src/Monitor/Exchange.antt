-- ===== src/Monitor/Exchange.antt =====
-- The console's commands over the namenode and back to the monitor.
use dsproj.Common.{All-append, ◌<◌, ◌≡◌, ◌≢◌, refl, arith, ℤ, true, some, ◌∷◌, ◌++◌, length}
use dsproj.Text.{Bytes, codes, comma, Lacks, atoi, snprintf10}
use dsproj.Text.Number.{IsShort, IsField, snprintf10-IsField, length-snprintf10}
use dsproj.Posix.{Posix, sent, Datagram, hostname_to_ip, found}
use dsproj.Dispatch.Request.{literal-IsField}
use dsproj.RoundTrip.Buffer.{received-text, strtok-IsField, number-last, within-fits}
use dsproj.RoundTrip.Exchange.{send_to-found}
use dsproj.Monitor.{
  monitor_port, dnlist_text, sendrep_text, shows_replication, asked, Service, replica, console,
  send_ack_rep, monitorcommand_namenode, receivecommand_monitor,
}

abbrev pub to_monitor : Bytes → Bytes → Datagram
to_monitor ip text = record { to_ip = ip; to_port = monitor_port; payload = text }

sendrep-IsField : IsField sendrep_text
sendrep-IsField = literal-IsField sendrep_text refl refl (λ e. cc)

pub dnlist-IsField : IsField dnlist_text
dnlist-IsField = literal-IsField dnlist_text refl refl (λ e. cc)

-- A short command with a number.
abbrev pub count_text : ℤ → Bytes
count_text v = sendrep_text ++ (comma ∷ snprintf10 v)

count_text-Lacks : (v : ℤ) → Lacks 0 (count_text v)
count_text-Lacks v =
    All-append (λ c. c ≢ 0) sendrep_text (comma ∷ snprintf10 v) sendrep-IsField.no_nul
      (omega arith, (snprintf10-IsField v).no_nul)

module _ {S : Type 0} (os : Posix S) (s : S) where
  turn-count :
      (host ip : Bytes) (v : ℤ) (sv : Service)
      → hostname_to_ip os host ≡ found ip
      → IsShort v
      → monitorcommand_namenode os host (count_text v) sv s
        ≡ some (
          some (sent (to_monitor ip (count_text v))),
          record { replication_count = v; lists = sv.lists },
          s,
        )
  unfolding monitorcommand_namenode send_ack_rep
  turn-count host ip v sv back short = rw (
    received-text 1000 (count_text v) (count_text-Lacks v) (omega (arith, length-snprintf10 v)),
    strtok-IsField sendrep_text (snprintf10 v) sendrep-IsField,
    number-last v short,
    send_to-found os host monitor_port _ s {text = count_text v} back refl,
  )

  display-count :
      (host monitor_namenode : Bytes) (v : ℤ)
      → IsShort v
      → receivecommand_monitor os monitor_namenode host (count_text v) s
        ≡ some (record { running = true; display = shows_replication v }, s)
  unfolding receivecommand_monitor
  display-count host monitor_namenode v short = rw (
    received-text 1000 (count_text v) (count_text-Lacks v) (omega (arith, length-snprintf10 v)),
    strtok-IsField sendrep_text (snprintf10 v) sendrep-IsField,
    number-last v short,
  )

-- The operator's "replica w", for a word that fits char[20] and whose number has at most nine
-- characters: the console sends a datagram to the namenode; the namenode's turn on it sets
-- replication_count to that number, keeps its lists, and sends an answer to the monitor; and the
-- monitor's turn on the answer shows that number and goes on.
pub console-replica :
    {S T : Type 0} (os : Posix S) (os_n : Posix T)
    (namenode monitor_namenode host node_host : Bytes) (node_ip ip word : Bytes) (sv : Service)
    (s s2 : S) (t : T)
    → hostname_to_ip os namenode ≡ found node_ip
    → hostname_to_ip os_n host ≡ found ip
    → length word < 20
    → IsShort (atoi word)
    → (d ack : Datagram) × (console os namenode (codes "replica") word s ≡ some (asked (sent d), s))
      × (d.to_ip ≡ node_ip)
      × (d.to_port ≡ monitor_port)
      × (monitorcommand_namenode os_n host d.payload sv t
          ≡ some (some (sent ack), record { replication_count = atoi word; lists = sv.lists }, t))
      × (ack.to_ip ≡ ip)
      × (ack.to_port ≡ monitor_port)
      × (receivecommand_monitor os monitor_namenode node_host ack.payload s2
          ≡ some (record { running = true; display = shows_replication (atoi word) }, s2))
unfolding console replica
console-replica os os_n namenode monitor_namenode host node_host node_ip ip word sv s s2 t there
      back fits short =
    (
      to_monitor node_ip (count_text (atoi word)),
      to_monitor ip (count_text (atoi word)),
      rw (
        within-fits 20 word fits,
        send_to-found os namenode monitor_port _ s {text = count_text (atoi word)} there refl,
      ),
      refl,
      refl,
      turn-count os_n t host ip (atoi word) sv back short,
      refl,
      refl,
      display-count os s2 node_host monitor_namenode (atoi word) short,
    )
