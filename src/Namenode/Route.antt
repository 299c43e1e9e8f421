-- ===== src/Namenode/Route.antt =====
-- The way of a request from the client's message over the namenode to the call on a datanode.
use dsproj.Common.{ℕ, true, false, some, ◌>>=◌, ◌≡◌, ◌<◌, length, get_elem?, refl}
use dsproj.Text.{Bytes, Lacks}
use dsproj.Text.Number.{IsField}
use dsproj.Client.{my_path}
use dsproj.Posix.{Posix, hostname_to_ip, found, sent, Datagram}
use dsproj.Registry.{Lists, Pong, Filelist, find_file}
use dsproj.Registry.Invariant.{IsWellFormed}
use dsproj.Registry.Answer.{file_replica}
use dsproj.Dispatch.{Turn, receivecommand_datanode}
use dsproj.Dispatch.Request.{Request, request_command, request_text, IsPlainRequest, forwarded}
use dsproj.Dispatch.Answered.{answered}
use dsproj.Dispatch.Orders.{receivecommand_datanode-meant}
use dsproj.Namenode.{is_one_of, entering_commands, receivecommand_namenode}
use dsproj.Namenode.Relay.{request_path, request_message, receivecommand_namenode_relay}

module _ {S : Type 0} (os : Posix S) (pong : Pong) (host : Bytes) (lists : Lists) (s : S)
    (q : Request) (i : ℕ) (f : Filelist) (dn : Bytes) {ip : Bytes} (plain : IsPlainRequest q)
    (no_nul : Lacks 0 (request_text q))
    (fits : length (forwarded (request_command q) host (request_text q)) < 1000)
    (formed : IsWellFormed lists.datanodes lists.files)
    (listed : find_file 0 (my_path (request_path q)) lists.files ≡ some i)
    (at : get_elem? lists.files i ≡ some f) (answers : file_replica pong f.slots ≡ some dn)
    (resolved : hostname_to_ip os dn ≡ found ip) where
  -- A plain request that enters no path, for a listed file of well-formed lists of which a
  -- replica's datanode answers and can be reached, is served: the namenode sends a datagram to that
  -- datanode, and the datanode, whatever its own state, answers there by the operating system's
  -- calls for the client's operation, with the client's path, numbers and data. The host is a field
  -- below 100 bytes, and the message fits its buffer.
  pub request_served :
      {R : Type 0} (dn_os : Posix R) (datanode_namenode : Bytes) (dn_lists : Lists) (r : R)
      → IsField host
      → length host < 100
      → is_one_of (request_command q) entering_commands ≡ false
      → (turn : Turn) × (d : Datagram) × (receivecommand_namenode os pong host
            (request_message q)
            lists
            s
          ≡ some (turn, s))
        × (turn.reply ≡ some (sent d))
        × (d.to_ip ≡ ip)
        × (receivecommand_datanode dn_os datanode_namenode d.payload dn_lists r ≡ (
            answered dn_os host q r >>= λ t.
            some (record { running = true; reply = some t.0; lists = dn_lists }, t.1)))
  request_served dn_os datanode_namenode dn_lists r named host_fits reads =
      let (d, sending) =
        receivecommand_namenode_relay os pong host lists s q i f dn plain no_nul fits formed listed
          at answers resolved reads in
      (
        _,
        _,
        sending,
        refl,
        refl,
        receivecommand_datanode-meant dn_os datanode_namenode host dn_lists r named host_fits q
            plain no_nul fits,
      )
