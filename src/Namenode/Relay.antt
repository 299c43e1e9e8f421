-- ===== src/Namenode/Relay.antt =====
-- What the namenode does with the requests of client.c: receivecommand_namenode on a path in its lists.
use dsproj.Common.{
  ℕ, ◌+◌, true, false, Option, some, [], ◌∷◌, ◌++◌, ◌≡◌, ◌≢◌, ◌<◌, ◌>>=◌, length, length-append,
  get_elem?, All-append, arith, refl, ◌∙◌, ap,
}
use dsproj.Text.{Bytes, comma, Lacks, strtok, within}
use dsproj.RoundTrip.Buffer.{received-text, strtok-IsField, within-fits}
use dsproj.RoundTrip.Exchange.{send_to-found}
use dsproj.Client.{my_path, sendcommand}
use dsproj.Posix.{Posix, hostname_to_ip, found, sent, command_port, Datagram}
use dsproj.Registry.{Lists, Pong, Filelist, find_file}
use dsproj.Registry.Invariant.{IsWellFormed}
use dsproj.Registry.Answer.{file_replica, getfiledn-file_replica}
use dsproj.Dispatch.Request.{Request, request_command, request_text, IsPlainRequest, forwarded}
use dsproj.Dispatch.Orders.{path_last, path_field, request_command-IsField}
use dsproj.Namenode.{
  is_one_of, relayed_commands, entering_commands, receivecommand_namenode, after_relay,
}

-- The path that a request is about.
abbrev pub request_path : Request → Bytes
request_path (Request.ask_getattr path) = path
request_path (Request.ask_readdir path) = path
request_path (Request.ask_unlink path) = path
request_path (Request.ask_rmdir path) = path
request_path (Request.ask_access path mask) = path
request_path (Request.ask_open path flags) = path
request_path (Request.ask_mkdir path mode) = path
request_path (Request.ask_chmod path mode) = path
request_path (Request.ask_read path size offset) = path
request_path (Request.ask_mknod path mode rdev) = path
request_path (Request.ask_write path buf size offset) = path
request_path (Request.ask_rename path to) = path

request_text_path :
    (q : Request)
    → IsPlainRequest q
    → (rest : Bytes) × (strtok comma (request_text q) ≡ some (my_path (request_path q), rest))
request_text_path (Request.ask_getattr path) h = ([], path_last path h)
request_text_path (Request.ask_readdir path) h = ([], path_last path h)
request_text_path (Request.ask_unlink path) h = ([], path_last path h)
request_text_path (Request.ask_rmdir path) h = ([], path_last path h)
request_text_path (Request.ask_access path mask) h = (_, path_field path _ h.0)
request_text_path (Request.ask_open path flags) h = (_, path_field path _ h.0)
request_text_path (Request.ask_mkdir path mode) h = (_, path_field path _ h.0)
request_text_path (Request.ask_chmod path mode) h = (_, path_field path _ h.0)
request_text_path (Request.ask_read path size offset) h = (_, path_field path _ h.0)
request_text_path (Request.ask_mknod path mode rdev) h = (_, path_field path _ h.0)
request_text_path (Request.ask_write path buf size offset) h = (_, path_field path _ h.0)
request_text_path (Request.ask_rename path to) h = (_, path_field path _ h.0)

request_command_relayed : (q : Request) → is_one_of (request_command q) relayed_commands ≡ true
request_command_relayed (Request.ask_getattr path) = refl
request_command_relayed (Request.ask_readdir path) = refl
request_command_relayed (Request.ask_unlink path) = refl
request_command_relayed (Request.ask_rmdir path) = refl
request_command_relayed (Request.ask_access path mask) = refl
request_command_relayed (Request.ask_open path flags) = refl
request_command_relayed (Request.ask_mkdir path mode) = refl
request_command_relayed (Request.ask_chmod path mode) = refl
request_command_relayed (Request.ask_read path size offset) = refl
request_command_relayed (Request.ask_mknod path mode rdev) = refl
request_command_relayed (Request.ask_write path buf size offset) = refl
request_command_relayed (Request.ask_rename path to) = refl

-- The text that the client's sendcommand makes of a request.
abbrev pub request_message : Request → Bytes
request_message q = request_command q ++ (comma ∷ request_text q)

pub sendcommand-found :
    {S : Type 0} (os : Posix S) (node cmd text : Bytes) (s : S) {ip : Bytes}
    → hostname_to_ip os node ≡ found ip
    → length (cmd ++ (comma ∷ text)) < 1000
    → sendcommand os node text cmd s
      ≡ some
          (sent (record { to_ip = ip; to_port = command_port; payload = cmd ++ (comma ∷ text) }), s)
unfolding sendcommand
sendcommand-found os node cmd text s resolved fits =
    send_to-found os node command_port
      (λ s. within 1000 (cmd ++ (comma ∷ text)) >>= λ t. some (t, s)) s
      {text = cmd ++ (comma ∷ text)} {s' = s} resolved
      (rw (within-fits 1000 (cmd ++ (comma ∷ text)) fits))

module _ {S : Type 0} (os : Posix S) (pong : Pong) (host : Bytes) (lists : Lists) (s : S)
    (q : Request) (i : ℕ) (f : Filelist) (dn : Bytes) {ip : Bytes} (plain : IsPlainRequest q)
    (no_nul : Lacks 0 (request_text q))
    (fits : length (forwarded (request_command q) host (request_text q)) < 1000)
    (formed : IsWellFormed lists.datanodes lists.files)
    (listed : find_file 0 (my_path (request_path q)) lists.files ≡ some i)
    (at : get_elem? lists.files i ≡ some f) (answers : file_replica pong f.slots ≡ some dn)
    (resolved : hostname_to_ip os dn ≡ found ip) where
  -- The datagram to the datanode.
  abbrev pub passed_on : Datagram
  passed_on = record {
    to_ip = ip;
    to_port = command_port;
    payload = forwarded (request_command q) host (request_text q);
  }

  relayed :
      (d : Option ℕ) × (receivecommand_namenode os pong host (request_message q) lists s
        ≡ after_relay os
            (request_command q)
            (my_path (request_path q))
            dn
            (record lists { dlist = d })
            (sent passed_on, s))
  unfolding receivecommand_namenode
  relayed =
      let cmd = request_command q in
      let text = request_text q in
      let (rest, token) = request_text_path q plain in
      let (d, chosen) = getfiledn-file_replica pong _ _ host lists i f formed listed at in
      let clean : Lacks 0 (request_message q) =
        All-append (λ b. b ≢ 0) cmd _ (request_command-IsField q).no_nul (omega arith, no_nul) in
      let whole : length (forwarded cmd host text)
          ≡ length cmd + length (comma ∷ (host ++ (comma ∷ request_message q))) =
        length-append cmd _ in
      let buf2 : length (host ++ (comma ∷ request_message q))
          ≡ length host + length (comma ∷ request_message q) =
        length-append host _ in
      let sending : sendcommand os dn (host ++ (comma ∷ request_message q)) cmd s
          ≡ some (sent passed_on, s) =
        sendcommand-found os dn cmd (host ++ (comma ∷ request_message q)) s resolved fits in
      (
        d,
        rw (received-text 1000 (request_message q) clean (omega arith)) (
            rw
              (
                within-fits 1000 (host ++ (comma ∷ request_message q)) (omega arith),
                strtok-IsField cmd text (request_command-IsField q),
                request_command_relayed q,
                token,
                chosen ∙ ap (λ o. some (o, record lists { dlist = d })) answers,
              )
              (rw sending)),
      )

  -- A plain request for a listed file of well-formed lists, of which a replica's datanode answers
  -- and can be reached, is passed on to that datanode if its command enters no path and the message
  -- fits: the namenode sends the host of the client and the whole message there, goes on, and the
  -- lists stay as they are, but for `dlist`.
  pub receivecommand_namenode_relay :
      is_one_of (request_command q) entering_commands ≡ false
      → (d : Option ℕ) × (receivecommand_namenode os pong host (request_message q) lists s
          ≡ some (
            record {
              running = true;
              reply = some (sent passed_on);
              lists = record lists { dlist = d };
            },
            s,
          ))
  unfolding after_relay
  receivecommand_namenode_relay reads = let (d, r) = relayed in (d, r ∙ rw reads)
