-- ===== src/Network/Delivery.antt =====
-- A request and its reply over the network.
use dsproj.Common.{ℕ, true, Option, some, ◌>>=◌, ◌≡◌, ◌<◌, length, ◌∷◌, ◌++◌, ==_refl}
use dsproj.Text.{Bytes, comma, Lacks, within}
use dsproj.Text.Number.{IsField}
use dsproj.Posix.{Posix, sent, command_port, response_port, hostname_to_ip, found}
use dsproj.Client.{Answer, Reply, await, transact}
use dsproj.Registry.{Lists}
use dsproj.Registry.Insert.{same_refl}
use dsproj.Dispatch.{serve}
use dsproj.Dispatch.Request.{
  Request, IsPlainRequest, request_command, request_text, meant, forwarded,
}
use dsproj.Dispatch.Orders.{receivecommand_datanode-serve}
use dsproj.Namenode.{receivecommand_namenode}
use dsproj.Namenode.Relay.{request_message, sendcommand-found}
use dsproj.RoundTrip.Exchange.{replies}
use dsproj.RoundTrip.Buffer.{within-fits}
use dsproj.Network.{Net, deliver, network}

deliver-sent :
    (ip : Bytes) (port : ℕ) (payload : Bytes)
    → deliver ip port (some (sent (record { to_ip = ip; to_port = port; payload = payload })))
      ≡ some payload
deliver-sent ip port payload = rw (same_refl ip, ==_refl port)

-- The datagram of a plain request brings the text with which the datanode serves it.
pub network-request :
    {N D : Type 0} (net : Net N D) (q : Request) (text : Bytes) {lists' dn_lists' : Lists} {n : N}
    {r : D}
    → IsPlainRequest q
    → Lacks 0 (request_text q)
    → length (forwarded (request_command q) net.client_host (request_text q)) < 1000
    → IsField net.client_host
    → length net.client_host < 100
    → receivecommand_namenode net.nn_os net.pong net.client_host
        (request_message q)
        net.lists
        net.nn_state
      ≡ some (
        record {
          running = true;
          reply = some (
              sent (record {
                to_ip = net.dn_ip;
                to_port = command_port;
                payload = forwarded (request_command q) net.client_host (request_text q);
              }));
          lists = lists';
        },
        n,
      )
    → serve net.dn_os net.datanode_namenode net.client_host (meant q) net.dn_lists net.dn_state
      ≡ some (
        record {
          running = true;
          reply =
              some
                (sent (record { to_ip = net.client_ip; to_port = response_port; payload = text }));
          lists = dn_lists';
        },
        r,
      )
    → network net
        (record { to_ip = net.nn_ip; to_port = command_port; payload = request_message q })
      ≡ some (net.first, text)
unfolding network
network-request net q text plain no_nul fits named host_fits relayed served =
    rw (deliver-sent net.nn_ip command_port (request_message q), relayed)
      (rw
        (
          deliver-sent net.dn_ip command_port
              (forwarded (request_command q) net.client_host (request_text q)),
          receivecommand_datanode-serve net.dn_os net.datanode_namenode net.client_host net.dn_lists
              net.dn_state named host_fits q plain no_nul fits,
          served,
        )
        (rw (deliver-sent net.client_ip response_port text)))

-- For one request an answer is as good as the datagram that it brings.
pub transact-answer :
    {S : Type 0} (os : Posix S) (namenode : Bytes) (answer : Answer) (first : ℕ)
    (msg cmd text : Bytes) (s : S) {ip : Bytes}
    → hostname_to_ip os namenode ≡ found ip
    → length (cmd ++ (comma ∷ text)) < 1000
    → answer (record { to_ip = ip; to_port = command_port; payload = cmd ++ (comma ∷ text) })
      ≡ some (first, msg)
    → transact os namenode answer cmd text s ≡ transact os namenode (replies first msg) cmd text s
unfolding transact await
transact-answer os namenode answer first msg cmd text s resolved fits answers =
    rw (sendcommand-found os namenode cmd text s resolved fits) (rw answers)

-- An operation makes of a reply over the network what it makes of the reply alone.
pub operation-answer {ℓ} :
    {S : Type 0} {A : Type ℓ} (os : Posix S) (namenode : Bytes) (answer : Answer) (first : ℕ)
    (msg cmd : Bytes) (size : ℕ) (text : Bytes) (s : S) (k : Reply → Option A) {ip : Bytes}
    → hostname_to_ip os namenode ≡ found ip
    → length text < size
    → length (cmd ++ (comma ∷ text)) < 1000
    → answer (record { to_ip = ip; to_port = command_port; payload = cmd ++ (comma ∷ text) })
      ≡ some (first, msg)
    → (within size text >>= λ t. transact os namenode answer cmd t s >>= k)
      ≡ (within size text >>= λ t. transact os namenode (replies first msg) cmd t s >>= k)
operation-answer os namenode answer first msg cmd size text s k resolved in_size fits answers =
    rw (within-fits size text in_size)
      (rw (transact-answer os namenode answer first msg cmd text s resolved fits answers))
