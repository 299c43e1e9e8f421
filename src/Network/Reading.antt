-- ===== src/Network/Reading.antt =====
-- Operations of client.c that enter no path, over the network: getattr, readdir, unlink and read.
use dsproj.Common.{
  ℕ, zero, suc, drop, ℤ, pos, true, false, some, ◌≡◌, ◌≢◌, ◌<◌, ◌≤◌, ◌+◌, refl, ap, ◌∙◌, arith,
  length, length-append, get_elem?, [], ◌∷◌, ◌++◌, All, minus_one,
}
use dsproj.Text.{Bytes, codes, comma, Lacks, c_str}
use dsproj.Text.Number.{IsField, IsShort}
use dsproj.Posix.{Posix, Datagram, sent, command_port, response_port, hostname_to_ip, found}
use dsproj.Reply.{result_line, getattr_text, stat_fields, sendresponse_getattr, sendresponse_unlink}
use dsproj.Client.{my_path}
use dsproj.Client.Status.{xmp_unlink}
use dsproj.Client.Attr.{my_getattr}
use dsproj.Registry.{Filelist, find_file}
use dsproj.Registry.Invariant.{IsWellFormed}
use dsproj.Registry.Answer.{file_replica}
use dsproj.Dispatch.{Turn, serve, receivecommand_datanode}
use dsproj.Dispatch.Orders.{receivecommand_datanode-serve}
use dsproj.Dispatch.Request.{
  Request, IsPlainRequest, request_command, request_text, meant, forwarded,
}
use dsproj.Namenode.{receivecommand_namenode, is_one_of, entering_commands}
use dsproj.Namenode.Relay.{request_message, request_path, receivecommand_namenode_relay}
use dsproj.RoundTrip.Exchange.{replies, send_to-found}
use dsproj.RoundTrip.Buffer.{IsShortCall, fuse_status}
use dsproj.RoundTrip.Status.{xmp_unlink-sendresponse_unlink}
use dsproj.RoundTrip.Attr.{getattr_result, my_getattr-sendresponse_getattr}
use dsproj.Reply.Files.{sendresponse_read}
use dsproj.Client.Files.{xmp_read, read_request}
use dsproj.RoundTrip.Read.{
  HasSize, read_call, read_bytes, read_reply, read_file-text, xmp_read-sendresponse_read,
}
use dsproj.Network.{Net, network}
use dsproj.Network.Delivery.{network-request, operation-answer}

-- The namenode is found and in well-formed lists has the file, with a replica on that datanode, which
-- answers; the three nodes have each other's addresses, and the reply is there within the wait.
pub record IsServing {S N D : Type 0} (os : Posix S) (net : Net N D) (namenode path : Bytes)
    : Type 0 where
  pub place : ℕ
  pub file : Filelist
  pub dn : Bytes
  pub named : hostname_to_ip os namenode ≡ found net.nn_ip
  pub in_time : net.first ≤ 100
  pub formed : IsWellFormed net.lists.datanodes net.lists.files
  pub listed : find_file 0 (my_path path) net.lists.files ≡ some place
  pub at : get_elem? net.lists.files place ≡ some file
  pub answers : file_replica net.pong file.slots ≡ some dn
  pub resolved : hostname_to_ip net.nn_os dn ≡ found net.dn_ip
  pub back : hostname_to_ip net.dn_os net.client_host ≡ found net.client_ip
  pub host_field : IsField net.client_host
  pub host_fits : length net.client_host < 100

pub drop-nil : (n : ℕ) → drop {A = ℕ} n [] ≡ []
drop-nil zero = refl
drop-nil (suc n) = refl

pub length-forwarded :
    (cmd host text : Bytes)
    → length (forwarded cmd host text) ≡ 3 + length cmd + length host + length cmd + length text
length-forwarded cmd host text = omega (
  arith,
  length-append cmd (comma ∷ (host ++ (comma ∷ (cmd ++ (comma ∷ text))))),
  length-append host (comma ∷ (cmd ++ (comma ∷ text))),
  length-append cmd (comma ∷ text),
)

network-read :
    {S N D : Type 0} (os : Posix S) (net : Net N D) (namenode : Bytes) (q : Request) (text : Bytes)
    {r : D}
    → IsServing os net namenode (request_path q)
    → IsPlainRequest q
    → Lacks 0 (request_text q)
    → length (forwarded (request_command q) net.client_host (request_text q)) < 1000
    → is_one_of (request_command q) entering_commands ≡ false
    → serve net.dn_os net.datanode_namenode net.client_host (meant q) net.dn_lists net.dn_state
      ≡ some (
        record {
          running = true;
          reply =
              some
                (sent (record { to_ip = net.client_ip; to_port = response_port; payload = text }));
          lists = net.dn_lists;
        },
        r,
      )
    → network net
        (record { to_ip = net.nn_ip; to_port = command_port; payload = request_message q })
      ≡ some (net.first, text)
network-read os net namenode q text h plain no_nul fits reads served =
    let (d, sending) =
      receivecommand_namenode_relay net.nn_os net.pong net.client_host net.lists net.nn_state q
        h.place h.file h.dn plain no_nul fits h.formed h.listed h.at h.answers h.resolved reads in
    network-request net q text plain no_nul fits h.host_field h.host_fits sending served

module _ {S N D : Type 0} (os : Posix S) (net : Net N D) (namenode path : Bytes) (s : S)
    (serving : IsServing os net namenode path) (plain : Lacks comma path)
    (no_nul : Lacks 0 (my_path path)) (fits : length (my_path path) < 100) where
  -- With all three programs at work on nodes that find each other, and with the reply there within
  -- the wait (IsServing): getattr of a listed file gives the client the stat of that path on the
  -- datanode that answers for it, or -errno if stat failed there. The path has no comma and no NUL
  -- and fits, and all numbers of the reply have at most nine characters.
  pub my_getattr-network :
      IsShortCall (net.dn_os.stat (my_path path) net.dn_state).0
      → All IsShort (stat_fields (net.dn_os.stat (my_path path) net.dn_state).1)
      → my_getattr os namenode (network net) path s
        ≡ some (
            getattr_result
              (net.dn_os.stat (my_path path) net.dn_state).0
              (net.dn_os.stat (my_path path) net.dn_state).1)
  my_getattr-network short fields =
      let (c, st, r) = net.dn_os.stat (my_path path) net.dn_state in
      let d : Datagram = record {
        to_ip = net.client_ip;
        to_port = response_port;
        payload = getattr_text c st;
      } in
      let sending : sendresponse_getattr net.dn_os net.client_host (my_path path) net.dn_state
          ≡ some (sent d, r) =
        unfold sendresponse_getattr in
        (send_to-found net.dn_os net.client_host response_port _ net.dn_state serving.back refl) in
      let brings =
        network-read os net namenode (Request.ask_getattr path) d.payload {r = r} serving plain
          no_nul
          (omega (
            arith,
            length-forwarded (codes "getattr") net.client_host (my_path path),
            serving.host_fits,
          ))
          refl (unfold serve in (rw sending)) in
      let over : my_getattr os namenode (network net) path s
          ≡ my_getattr os namenode (replies net.first d.payload) path s =
        unfold my_getattr in
        (operation-answer os namenode (network net) net.first d.payload (codes "getattr") 100
          (my_path path) s _ serving.named fits (omega arith) brings) in
      over
      ∙ my_getattr-sendresponse_getattr os net.dn_os namenode path net.client_host (my_path path)
          net.first s net.dn_state serving.named serving.in_time d fits sending short fields

  -- With all three programs at work on nodes that find each other, and with the reply there within
  -- the wait (IsServing): removing a listed file removes that path on the datanode that answers for
  -- it, and gives the client its result there, 0 or -errno: the namenode sends a datagram to that
  -- datanode, whose turn on it leaves the machine as the unlink of the path does. The path has no comma
  -- and no NUL and fits, and the two numbers of the reply have at most nine characters.
  pub xmp_unlink-network :
      IsShortCall (net.dn_os.unlink (my_path path) net.dn_state).0
      → (xmp_unlink os namenode (network net) path s
          ≡ some (fuse_status (net.dn_os.unlink (my_path path) net.dn_state).0))
        × ((nn_turn dn_turn : Turn) × (d : Datagram) × (receivecommand_namenode net.nn_os net.pong
                net.client_host
                (request_message (Request.ask_unlink path))
                net.lists
                net.nn_state
              ≡ some (nn_turn, net.nn_state))
            × (nn_turn.reply ≡ some (sent d))
            × (d.to_ip ≡ net.dn_ip)
            × (receivecommand_datanode net.dn_os net.datanode_namenode d.payload net.dn_lists
                  net.dn_state
                ≡ some (dn_turn, (net.dn_os.unlink (my_path path) net.dn_state).1)))
  xmp_unlink-network short =
      let (c, r) = net.dn_os.unlink (my_path path) net.dn_state in
      let d : Datagram = record {
        to_ip = net.client_ip;
        to_port = response_port;
        payload = result_line c;
      } in
      let sending : sendresponse_unlink net.dn_os net.client_host (my_path path) net.dn_state
          ≡ some (sent d, r) =
        unfold sendresponse_unlink in
        (send_to-found net.dn_os net.client_host response_port _ net.dn_state serving.back refl) in
      let brings =
        network-read os net namenode (Request.ask_unlink path) d.payload {r = r} serving plain
          no_nul
          (omega (
            arith,
            length-forwarded (codes "unlink") net.client_host (my_path path),
            serving.host_fits,
          ))
          refl (unfold serve in (rw sending)) in
      let over : xmp_unlink os namenode (network net) path s
          ≡ xmp_unlink os namenode (replies net.first d.payload) path s =
        unfold xmp_unlink in
        (operation-answer os namenode (network net) net.first d.payload (codes "unlink") 100
          (my_path path) s _ serving.named fits (omega arith) brings) in
      let small : length (forwarded (codes "unlink") net.client_host (my_path path)) < 1000 =
        omega (
          arith,
          length-forwarded (codes "unlink") net.client_host (my_path path),
          serving.host_fits,
        ) in
      let (_, relayed) =
        receivecommand_namenode_relay net.nn_os net.pong net.client_host net.lists net.nn_state
          (Request.ask_unlink path) serving.place serving.file serving.dn plain no_nul small
          serving.formed serving.listed serving.at serving.answers serving.resolved refl in
      let turn : Turn = record { running = true; reply = some (sent d); lists = net.dn_lists } in
      let served : serve net.dn_os net.datanode_namenode net.client_host
            (meant (Request.ask_unlink path)) net.dn_lists net.dn_state
          ≡ some (turn, r) =
        unfold serve in (rw sending) in
      let removed =
        receivecommand_datanode-serve net.dn_os net.datanode_namenode net.client_host net.dn_lists
          net.dn_state serving.host_field serving.host_fits (Request.ask_unlink path) plain no_nul
          small
        ∙ served in
      (
        over
            ∙ xmp_unlink-sendresponse_unlink os net.dn_os namenode path net.client_host
                (my_path path) net.first s net.dn_state serving.named serving.in_time d fits sending
                short,
        (_, turn, _, relayed, refl, refl, removed),
      )

  -- With all three programs at work on nodes that find each other, and with the reply there within
  -- the wait (IsServing): if the open and the pread of that path on the datanode that answers for a
  -- listed file succeed, and the bytes that were read, up to a NUL, are not empty and have no
  -- comma, a read gives the client exactly these bytes and pread's count. The path has no comma,
  -- the request no NUL, and it fits; its numbers and those of the reply have at most nine
  -- characters; fewer than 4076 bytes were read; the old string in the reply buffer is empty; and the
  -- size that the client asks for, which FUSE's buffer has, leaves room for a NUL behind the bytes.
  pub xmp_read-network :
      (size offset : ℤ)
      → let dn_os = net.dn_os in
        let r = net.dn_state in
        let dpath = my_path path in
        IsShort size
        → IsShort offset
        → Lacks 0 (read_request path size offset)
        → length (read_request path size offset) < 100
        → (dn_os.open_file dpath (pos 0) r).0.res ≢ minus_one
        → (read_call dn_os dpath size offset r).res ≢ minus_one
        → length (read_bytes dn_os dpath size offset r) < 4076
        → IsShortCall (read_call dn_os dpath size offset r)
        → IsField (c_str (read_bytes dn_os dpath size offset r))
        → HasSize size (suc (length (c_str (read_bytes dn_os dpath size offset r))))
        → xmp_read os namenode (network net) path size offset [] s
          ≡ some (
            (read_call dn_os dpath size offset r).res,
            some (c_str (read_bytes dn_os dpath size offset r)),
          )
  xmp_read-network size offset size_short offset_short clean in_size opens reads few short field
        room =
      let text =
        read_reply (read_call net.dn_os (my_path path) size offset net.dn_state)
          (c_str (read_bytes net.dn_os (my_path path) size offset net.dn_state)) in
      let d : Datagram = record {
        to_ip = net.client_ip;
        to_port = response_port;
        payload = text;
      } in
      let (r, done) =
        read_file-text net.dn_os (my_path path) size offset net.dn_state opens (omega arith) in
      let sending : sendresponse_read net.dn_os net.client_host (my_path path) size offset
            net.dn_state
          ≡ some (sent d, r) =
        unfold sendresponse_read in
        (send_to-found net.dn_os net.client_host response_port _ net.dn_state serving.back done) in
      let brings =
        network-read os net namenode (Request.ask_read path size offset) d.payload {r = r} serving
          (plain, size_short, offset_short) clean
          (omega (
            arith,
            length-forwarded (codes "read") net.client_host (read_request path size offset),
            serving.host_fits,
          ))
          refl (unfold serve in (rw sending)) in
      let over : xmp_read os namenode (network net) path size offset [] s
          ≡ xmp_read os namenode (replies net.first d.payload) path size offset [] s =
        unfold xmp_read in
        (operation-answer os namenode (network net) net.first d.payload (codes "read") 100
          (read_request path size offset) s _ serving.named in_size (omega arith) brings) in
      over
      ∙ xmp_read-sendresponse_read os net.dn_os namenode path net.client_host (my_path path)
          net.first s net.dn_state serving.named serving.in_time d size offset size offset []
          in_size sending opens reads few short (ap c_str (drop-nil (length d.payload)))
          (omega arith) field room
