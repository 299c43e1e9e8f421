-- ===== src/RoundTrip/Exchange.antt =====
-- An exchange between a client and the namenode that brings a reply.
use dsproj.Common.{
  ℕ, ◌+◌, ◌<◌, ◌≤◌, ◌≡◌, refl, ap, arith, Option, some, ◌∷◌, ◌++◌, length, length-append, ◌>>=◌,
  ◌⊎◌, inl, inr, ℤ,
}
use dsproj.Text.{Bytes, comma}
use dsproj.Wait.{wait_flag_iff}
use dsproj.Posix.{
  Posix, failed, sent, Datagram, HostIp, found, not_present, not_written, hostname_to_ip, send_to,
  command_port,
}
use dsproj.Client.{
  Answer, with_reply, with_reply_into, got, sendcommand, transact, await, flag_of, within,
}
use dsproj.RoundTrip.Buffer.{within-fits}

-- The text that a node sends if its address is found and its body is defined.
pub send_to-found :
    {S : Type 0} (os : Posix S) (node : Bytes) (port : ℕ) (body : S → Option (Bytes × S)) (s : S)
    {ip text : Bytes} {s' : S}
    → hostname_to_ip os node ≡ found ip
    → body s ≡ some (text, s')
    → send_to os node port body s
      ≡ some (sent (record { to_ip = ip; to_port = port; payload = text }), s')
unfolding send_to
send_to-found os node port body s h b = rw (h, send_to) (rw b)

-- Without an address nothing is sent.
pub send_to-not_present :
    {S : Type 0} (os : Posix S) (node : Bytes) (port : ℕ) (body : S → Option (Bytes × S)) (s : S)
    → hostname_to_ip os node ≡ not_present
    → send_to os node port body s ≡ some (failed, s)
unfolding send_to
send_to-not_present os node port body s h = rw (h, send_to)

-- The answer that brings one datagram, seen from that test of the waiting loop on.
abbrev pub replies : ℕ → Bytes → Answer
replies first msg = λ d. some (first, msg)

pub await-replies :
    (first : ℕ) (msg : Bytes) (d : Datagram)
    → first ≤ 100
    → await (replies first msg) (sent d) ≡ got msg
unfolding await
await-replies first msg d h =
    rw ((wait_flag_iff (flag_of (some (first, msg)))).1 first h (ground arith))

-- A command that fits its buffer brings the reply in time.
pub transact-replies :
    {S : Type 0} (os : Posix S) (namenode : Bytes) (first : ℕ) (msg cmd text : Bytes) (s : S)
    {ip : Bytes}
    → hostname_to_ip os namenode ≡ found ip
    → first ≤ 100
    → length cmd + length text < 999
    → transact os namenode (replies first msg) cmd text s ≡ some (got msg)
unfolding transact sendcommand
transact-replies os namenode first msg cmd text s {ip} h k fits =
    let sending : within 1000 (cmd ++ (comma ∷ text)) ≡ some (cmd ++ (comma ∷ text)) =
      within-fits 1000 _ (omega (arith, length-append cmd (comma ∷ text))) in
    rw
      (send_to-found os namenode command_port
        (λ s. within 1000 (cmd ++ (comma ∷ text)) >>= λ t. some (t, s)) s
        {text = cmd ++ (comma ∷ text)} {s' = s} h (rw sending))
      (ap some (await-replies first msg _ k))

HostIp-cases :
    (a : HostIp) → (a ≡ not_present) ⊎ (a ≡ not_written) ⊎ ((ip : Bytes) × (a ≡ found ip))
HostIp-cases not_present = inl refl
HostIp-cases not_written = inr (inl refl)
HostIp-cases (found ip) = inr (inr (ip, refl))

-- What was sent is what the body wrote.
pub payload_of_sent :
    {S : Type 0} (os : Posix S) (node : Bytes) (port : ℕ) (body : S → Option (Bytes × S)) (s : S)
    {text : Bytes} {s' : S} (d : Datagram) {t : S}
    → body s ≡ some (text, s')
    → send_to os node port body s ≡ some (sent d, t)
    → d.payload ≡ text
payload_of_sent os node port body s d b h = elim (HostIp-cases (hostname_to_ip os node)) [
  | inl e ↦ unfold send_to in ground arith
  | inr (inl e) ↦ unfold send_to in ground arith
  | inr (inr (ip, e)) ↦ cc (send_to-found os node port body s e b)
]

-- A datagram that was sent holds what the body wrote.
pub body_of_sent :
    {S : Type 0} (os : Posix S) (node : Bytes) (port : ℕ) (body : S → Option (Bytes × S)) (s : S)
    (d : Datagram) {t : S}
    → send_to os node port body s ≡ some (sent d, t)
    → body s ≡ some (d.payload, t)
body_of_sent os node port body s d h = elim (HostIp-cases (hostname_to_ip os node)) [
  | inl e ↦ unfold send_to in ground arith
  | inr (inl e) ↦ unfold send_to in ground arith
  | inr (inr (ip, e)) ↦ unfold send_to in ground arith
]

module _ {S : Type 0} (os : Posix S) (namenode : Bytes) (first : ℕ) (s : S) {ip : Bytes}
    (resolved : hostname_to_ip os namenode ≡ found ip) (in_time : first ≤ 100) where
  -- An operation on a request that fits, behind its reply.
  pub operation-replies :
      (size : ℕ) (msg cmd text : Bytes) (use_reply : Bytes → Option ℤ)
      → length text < size
      → length cmd + length text < 999
      → (within size text >>= λ text.
          transact os namenode (replies first msg) cmd text s >>= with_reply use_reply)
        ≡ use_reply msg
  operation-replies size msg cmd text use_reply fits small = rw (
    within-fits size text fits,
    transact-replies os namenode first msg cmd text s resolved in_time small,
  )

  pub operation_into-replies :
      {A : Type 0} (size : ℕ) (msg cmd text : Bytes) (use_reply : Bytes → Option (ℤ × Option A))
      → length text < size
      → length cmd + length text < 999
      → (within size text >>= λ text.
          transact os namenode (replies first msg) cmd text s >>= with_reply_into use_reply)
        ≡ use_reply msg
  operation_into-replies size msg cmd text use_reply fits small = rw (
    within-fits size text fits,
    transact-replies os namenode first msg cmd text s resolved in_time small,
  )
