-- ===== src/Monitor/Listing.antt =====
-- The console's "dn list" over the namenode and back to the monitor.
use dsproj.Common.{
  subst, All, All-append, All-map, ℕ, ◌<◌, ◌≤◌, ◌≡◌, ◌≢◌, refl, arith, true, none, some, [], ◌∷◌,
  ◌++◌, List, length, length-append, ◌>>=◌,
}
use dsproj.Text.{Bytes, codes, comma, Lacks, strtok, snprintf10, within, csv}
use dsproj.Text.Number.{IsPrint, snprintf10-IsPrint}
use dsproj.Text.Token.{strtok-last}
use dsproj.Posix.{Posix, sent, Datagram, hostname_to_ip, found}
use dsproj.Registry.{Datanode}
use dsproj.RoundTrip.Buffer.{received-text, received-overflow, strtok-IsField, within-fits}
use dsproj.RoundTrip.Exchange.{send_to-found}
use dsproj.Monitor.{
  monitor_port, dnlist_text, shows_datanodes, asked, Service, sendlist_text, datanode_sendlist,
  dnlist, console, senddnlist, monitorcommand_namenode, receivecommand_monitor,
}
use dsproj.Monitor.Exchange.{to_monitor, dnlist-IsField}

-- A byte that names and addresses have: no NUL and no blank.
abbrev IsVisible : ℕ → Type 0
IsVisible c = (c ≢ 0) × (c ≢ b' ')

abbrev pub IsVisibleText : Bytes → Type 0
IsVisibleText s = Lacks 0 s × Lacks b' ' s

abbrev pub IsVisibleNode : Datanode → Type 0
IsVisibleNode dn = IsVisibleText dn.node × IsVisibleText dn.ip

All-IsVisible : (s : Bytes) → IsVisibleText s → All IsVisible s
All-IsVisible [] h = tt
All-IsVisible (c ∷ s) (no_nul, no_blank) =
    ((no_nul.0, no_blank.0), All-IsVisible s (no_nul.1, no_blank.1))

sendlist_text-IsVisible :
    (dns : List Datanode) → All IsVisibleNode dns → All IsVisible (sendlist_text dns)
sendlist_text-IsVisible [] h = tt
sendlist_text-IsVisible (dn ∷ dns) ((hn, hi), h) =
    let number : All IsVisible (snprintf10 dn.alive) =
      All-map IsPrint IsVisible (λ c (p : IsPrint c). (omega arith, omega arith))
        (snprintf10 dn.alive) (snprintf10-IsPrint dn.alive) in
    All-append IsVisible dn.node _ (All-IsVisible dn.node hn) (
      (omega arith, omega arith),
      All-append IsVisible dn.ip _ (All-IsVisible dn.ip hi) (
        (omega arith, omega arith),
        All-append IsVisible (snprintf10 dn.alive) _ number
            ((omega arith, omega arith), sendlist_text-IsVisible dns h),
      ),
    )

-- What the namenode answers.
abbrev pub list_answer : List Datanode → Bytes
list_answer dns = dnlist_text ++ (comma ∷ sendlist_text dns)

list_answer-Lacks : (dns : List Datanode) → All IsVisibleNode dns → Lacks 0 (list_answer dns)
list_answer-Lacks dns h =
    All-append (λ c. c ≢ 0) dnlist_text (comma ∷ sendlist_text dns) dnlist-IsField.no_nul
      (omega arith, All-map IsVisible _ (λ c v. v.0) _ (sendlist_text-IsVisible dns h))

sendlist_text-ne-nil : (dn : Datanode) (dns : List Datanode) → sendlist_text (dn ∷ dns) ≢ []
sendlist_text-ne-nil dn dns e =
    let sizes : length (sendlist_text (dn ∷ dns)) ≡ 0 = rw e refl in
    absurd (
      omega (
        arith,
        sizes,
        length-append dn.node
            (comma ∷ (dn.ip ++ (comma ∷ (snprintf10 dn.alive ++ (comma ∷ sendlist_text dns))))),
      ))

-- The node, the address and the number of every datanode, in the order of the list.
abbrev pub columns : List Datanode → List Bytes
columns [] = []
columns (dn ∷ dns) = dn.node ∷ dn.ip ∷ snprintf10 dn.alive ∷ columns dns

sendlist_text-csv : (dns : List Datanode) → sendlist_text dns ≡ csv (columns dns)
sendlist_text-csv [] = refl
sendlist_text-csv (dn ∷ dns) = rw (sendlist_text-csv dns) refl

-- The namenode's turn on the request.
turn-dnlist :
    {S : Type 0} (os : Posix S) (s : S) (host ip : Bytes) (sv : Service) (dns : List Datanode)
    → hostname_to_ip os host ≡ found ip
    → sv.lists.datanodes ≡ dns
    → length (sendlist_text dns) < 9993
    → monitorcommand_namenode os host dnlist_text sv s
      ≡ some (
        some (sent (to_monitor ip (list_answer dns))),
        record sv { lists = record sv.lists { dlist = none } },
        s,
      )
unfolding monitorcommand_namenode datanode_sendlist senddnlist strtok
turn-dnlist os s host ip sv dns back nodes fits =
    let answer_fits = within-fits 10000 (list_answer dns) (omega arith) in
    rw (
      nodes,
      within-fits 10000 (sendlist_text dns) (omega arith),
      send_to-found os host monitor_port
          (λ s. within 10000 (list_answer dns) >>= λ text. some (text, s)) s
          {text = list_answer dns} {s' = s} back (rw answer_fits),
    )

module _ {S : Type 0} (os : Posix S) (s : S) (monitor_namenode host : Bytes) (dn : Datanode)
    (dns : List Datanode) (visible : All IsVisibleNode (dn ∷ dns)) where
  display-dnlist :
      length (list_answer (dn ∷ dns)) < 1000
      → receivecommand_monitor os monitor_namenode host (list_answer (dn ∷ dns)) s
        ≡ some (record { running = true; display = shows_datanodes (sendlist_text (dn ∷ dns)) }, s)
  unfolding receivecommand_monitor
  display-dnlist fits = rw (
    received-text 1000 (list_answer (dn ∷ dns)) (list_answer-Lacks (dn ∷ dns) visible) fits,
    strtok-IsField dnlist_text (sendlist_text (dn ∷ dns)) dnlist-IsField,
    strtok-last b' ' (sendlist_text (dn ∷ dns)) (sendlist_text-ne-nil dn dns)
        (All-map IsVisible _ (λ c v. v.1) _ (sendlist_text-IsVisible (dn ∷ dns) visible)),
  )

-- The operator's "dn list", for a namenode with at least one datanode whose names and addresses have
-- no blank and no NUL, and whose list has fewer than 993 bytes as a text: the console sends a datagram
-- to the namenode; the namenode's turn on it sends an answer to the monitor, and changes nothing but
-- the variable `dlist`, which becomes NULL; and the monitor's turn on the answer shows the name, the
-- address and the number of every datanode of the list, in its order, and goes on.
pub console-dnlist :
    {S T : Type 0} (os : Posix S) (os_n : Posix T)
    (namenode monitor_namenode host node_host : Bytes) (node_ip ip : Bytes) (sv : Service)
    (dn : Datanode) (dns : List Datanode) (s s2 : S) (t : T)
    → hostname_to_ip os namenode ≡ found node_ip
    → hostname_to_ip os_n host ≡ found ip
    → sv.lists.datanodes ≡ dn ∷ dns
    → All IsVisibleNode (dn ∷ dns)
    → length (sendlist_text (dn ∷ dns)) < 993
    → (d answer : Datagram) × (console os namenode (codes "dn") (codes "list") s
        ≡ some (asked (sent d), s))
      × (d.to_ip ≡ node_ip)
      × (d.to_port ≡ monitor_port)
      × (monitorcommand_namenode os_n host d.payload sv t
          ≡ some (some (sent answer), record sv { lists = record sv.lists { dlist = none } }, t))
      × (answer.to_ip ≡ ip)
      × (answer.to_port ≡ monitor_port)
      × (receivecommand_monitor os monitor_namenode node_host answer.payload s2
          ≡ some
              (record { running = true; display = shows_datanodes (csv (columns (dn ∷ dns))) }, s2))
unfolding console dnlist
console-dnlist os os_n namenode monitor_namenode host node_host node_ip ip sv dn dns s s2 t there
      back nodes visible fits =
    (
      to_monitor node_ip dnlist_text,
      to_monitor ip (list_answer (dn ∷ dns)),
      rw (send_to-found os namenode monitor_port _ s {text = dnlist_text} there refl) refl,
      refl,
      refl,
      turn-dnlist os_n t host ip sv (dn ∷ dns) back nodes (omega arith),
      refl,
      refl,
      subst
          (λ text.
            receivecommand_monitor os monitor_namenode node_host (list_answer (dn ∷ dns)) s2
            ≡ some (record { running = true; display = shows_datanodes text }, s2))
          (sendlist_text-csv (dn ∷ dns))
          (display-dnlist os s2 monitor_namenode node_host dn dns visible (omega arith)),
    )

-- A list of at least 993 bytes as a text is too long for the monitor: the namenode's turn sends it, as
-- long as it has fewer than 9993 bytes, but the monitor's turn on it reads past the end of its buffer.
pub console-dnlist_overflow :
    {S T : Type 0} (os : Posix S) (os_n : Posix T) (monitor_namenode host node_host ip : Bytes)
    (sv : Service) (s : S) (t : T)
    → hostname_to_ip os_n host ≡ found ip
    → All IsVisibleNode sv.lists.datanodes
    → 993 ≤ length (sendlist_text sv.lists.datanodes)
    → length (sendlist_text sv.lists.datanodes) < 9993
    → (answer : Datagram) × (monitorcommand_namenode os_n host dnlist_text sv t
        ≡ some (some (sent answer), record sv { lists = record sv.lists { dlist = none } }, t))
      × (receivecommand_monitor os monitor_namenode node_host answer.payload s ≡ none)
unfolding receivecommand_monitor
console-dnlist_overflow os os_n monitor_namenode host node_host ip sv s t back visible long fits = (
  to_monitor ip (list_answer sv.lists.datanodes),
  turn-dnlist os_n t host ip sv sv.lists.datanodes back refl fits,
  rw
      (received-overflow 1000 (list_answer sv.lists.datanodes)
        (list_answer-Lacks sv.lists.datanodes visible) (omega arith))
      refl,
)
