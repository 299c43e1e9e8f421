-- ===== src/Server/Forwarded.antt =====
-- The loop of receivecommand_server beside that of receivecommand_datanode (socket_command.c), whose
-- messages a namenode passes on.
use dsproj.Common.{
  ◌<◌, ◌≡◌, arith, refl, sym, subst, Bool-cases, Option-cases, inl, inr, false, Option, none, some,
  ◌∷◌, ◌++◌, ◌>>=◌, length, length-append, All-append, ◌≢◌,
}
use dsproj.Text.{Bytes, codes, comma, Lacks, same, strtok, number}
use dsproj.Text.Number.{IsField}
use dsproj.Posix.{Posix}
use dsproj.Registry.{Lists}
use dsproj.Registry.Known.{same-eq}
use dsproj.RoundTrip.Buffer.{received-text, strtok-IsField, within-fits}
use dsproj.Dispatch.{read_order, read_message, serve, receivecommand_datanode}
use dsproj.Server.{server_call, receivecommand_server}

-- What holds of a command of the list, and of every text that is not that command.
one_of : (P : Bytes → Type 0) (cmd c : Bytes) → P c → (same cmd c ≡ false → P cmd) → P cmd
one_of P cmd c here other = elim (Bool-cases (same cmd c)) [
  | inl e ↦ subst P (sym (same-eq cmd c e)) here
  | inr e ↦ other e
]

module _ {S : Type 0} (os : Posix S) (dnn host rest : Bytes) (lists : Lists) (s : S) where
  abbrev AgreesOn : Bytes → Type 0
  AgreesOn cmd =
      server_call os host cmd rest lists s
      ≡ (read_order cmd rest >>= λ order. serve os dnn host order lists s)

  getattr-AgreesOn : AgreesOn (codes "getattr")
  unfolding server_call read_order serve
  getattr-AgreesOn = elim (Option-cases (strtok comma rest)) [
    | inl e ↦ rw e refl
    | inr (t, e) ↦ rw e refl
  ]

  datanode-AgreesOn : AgreesOn (codes "datanode")
  unfolding server_call read_order serve
  datanode-AgreesOn = refl

  access-AgreesOn : AgreesOn (codes "access")
  unfolding server_call read_order serve
  access-AgreesOn = elim (Option-cases (strtok comma rest)) [
    | inl e ↦ rw e refl
    | inr (t, e) ↦ elim (Option-cases (number t.1)) [
      | inl m ↦ rw e (rw m refl)
      | inr (v, m) ↦ rw e (rw m refl)
    ]
  ]

  readdir-AgreesOn : AgreesOn (codes "readdir")
  unfolding server_call read_order serve
  readdir-AgreesOn = elim (Option-cases (strtok comma rest)) [
    | inl e ↦ rw e refl
    | inr (t, e) ↦ rw e refl
  ]

  open-AgreesOn : AgreesOn (codes "open")
  unfolding server_call read_order serve
  open-AgreesOn = elim (Option-cases (strtok comma rest)) [
    | inl e ↦ rw e refl
    | inr (t, e) ↦ elim (Option-cases (number t.1)) [
      | inl m ↦ rw e (rw m refl)
      | inr (v, m) ↦ rw e (rw m refl)
    ]
  ]

  read-AgreesOn : AgreesOn (codes "read")
  unfolding server_call read_order serve
  read-AgreesOn = elim (Option-cases (strtok comma rest)) [
    | inl e ↦ rw e refl
    | inr (t, e) ↦ rw e refl
  ]

  write-AgreesOn : AgreesOn (codes "write")
  unfolding server_call read_order serve
  write-AgreesOn = elim (Option-cases (strtok comma rest)) [
    | inl e ↦ rw e refl
    | inr (t, e) ↦ rw e refl
  ]

  mkdir-AgreesOn : AgreesOn (codes "mkdir")
  unfolding server_call read_order serve
  mkdir-AgreesOn = elim (Option-cases (strtok comma rest)) [
    | inl e ↦ rw e refl
    | inr (t, e) ↦ elim (Option-cases (number t.1)) [
      | inl m ↦ rw e (rw m refl)
      | inr (v, m) ↦ rw e (rw m refl)
    ]
  ]

  mknod-AgreesOn : AgreesOn (codes "mknod")
  unfolding server_call read_order serve
  mknod-AgreesOn = elim (Option-cases (strtok comma rest)) [
    | inl e ↦ rw e refl
    | inr (t, e) ↦ rw e refl
  ]

  truncate-AgreesOn : AgreesOn (codes "truncate")
  unfolding server_call read_order serve
  truncate-AgreesOn = elim (Option-cases (strtok comma rest)) [
    | inl e ↦ rw e refl
    | inr (t, e) ↦ rw e refl
  ]

  unlink-AgreesOn : AgreesOn (codes "unlink")
  unfolding server_call read_order serve
  unlink-AgreesOn = elim (Option-cases (strtok comma rest)) [
    | inl e ↦ rw e refl
    | inr (t, e) ↦ rw e refl
  ]

  rmdir-AgreesOn : AgreesOn (codes "rmdir")
  unfolding server_call read_order serve
  rmdir-AgreesOn = elim (Option-cases (strtok comma rest)) [
    | inl e ↦ rw e refl
    | inr (t, e) ↦ rw e refl
  ]

  statfs-AgreesOn : AgreesOn (codes "statfs")
  unfolding server_call read_order serve
  statfs-AgreesOn = elim (Option-cases (strtok comma rest)) [
    | inl e ↦ rw e refl
    | inr (t, e) ↦ rw e refl
  ]

  chmod-AgreesOn : AgreesOn (codes "chmod")
  unfolding server_call read_order serve
  chmod-AgreesOn = elim (Option-cases (strtok comma rest)) [
    | inl e ↦ rw e refl
    | inr (t, e) ↦ elim (Option-cases (number t.1)) [
      | inl m ↦ rw e (rw m refl)
      | inr (v, m) ↦ rw e (rw m refl)
    ]
  ]

  rename-AgreesOn : AgreesOn (codes "rename")
  unfolding server_call read_order serve
  rename-AgreesOn = elim (Option-cases (strtok comma rest)) [
    | inl e ↦ rw e refl
    | inr (t, e) ↦ rw e refl
  ]

  server_call-AgreesOn :
      (cmd : Bytes)
      → same cmd (codes "shutdown") ≡ false
      → same cmd (codes "dn_command") ≡ false
      → AgreesOn cmd
  unfolding server_call read_order serve
  server_call-AgreesOn cmd no_shutdown no_console =
      one_of AgreesOn cmd (codes "getattr") getattr-AgreesOn λ n1.
        one_of AgreesOn cmd (codes "datanode") datanode-AgreesOn λ n2.
          one_of AgreesOn cmd (codes "access") access-AgreesOn λ n3.
            one_of AgreesOn cmd (codes "readdir") readdir-AgreesOn λ n4.
              one_of AgreesOn cmd (codes "open") open-AgreesOn λ n5.
                one_of AgreesOn cmd (codes "read") read-AgreesOn λ n6.
                  one_of AgreesOn cmd (codes "write") write-AgreesOn λ n7.
                    one_of AgreesOn cmd (codes "mkdir") mkdir-AgreesOn λ n8.
                      one_of AgreesOn cmd (codes "mknod") mknod-AgreesOn λ n9.
                        one_of AgreesOn cmd (codes "truncate") truncate-AgreesOn λ n10.
                          one_of AgreesOn cmd (codes "unlink") unlink-AgreesOn λ n11.
                            one_of AgreesOn cmd (codes "rmdir") rmdir-AgreesOn λ n12.
                              one_of AgreesOn cmd (codes "statfs") statfs-AgreesOn λ n13.
                                one_of AgreesOn cmd (codes "chmod") chmod-AgreesOn λ n14.
                                  one_of AgreesOn cmd (codes "rename") rename-AgreesOn λ n15.
                                    rw
                                      (
                                        n1, n2, n3, n4, n5, n6, n7, n8, n9, n10, n11, n12, n13, n14,
                                        n15, no_shutdown, no_console,
                                      )
                                      refl

abbrev with_host : {A B : Type 0} → A → Option B → Option (A × B)
with_host a m = m >>= λ b. some (a, b)

bind_host :
    {A B C : Type 0} (a : A) (f : A → B → Option C) (m : Option B)
    → (m >>= f a) ≡ (with_host a m >>= λ t. f t.0 t.1)
bind_host a f none = refl
bind_host a f (some b) = refl

-- Every command but "shutdown" and "dn_command", with whatever stands behind it, makes the loop of the
-- server do on "command,text" from a host what the loop of a datanode does on the same message passed
-- on by a namenode, "x,host,command,text", undefined behaviour included: the same calls, the same
-- reply and the same change of the lists. The names are fields without commas, and the
-- longer message fits the buffer.
pub receivecommand_server-datanode :
    {S : Type 0} (os : Posix S) (datanode_namenode x host cmd text : Bytes) (lists : Lists) (s : S)
    → IsField x
    → IsField host
    → IsField cmd
    → same cmd (codes "shutdown") ≡ false
    → same cmd (codes "dn_command") ≡ false
    → length host < 100
    → Lacks 0 text
    → length (x ++ (comma ∷ (host ++ (comma ∷ (cmd ++ (comma ∷ text)))))) < 1000
    → receivecommand_server os host (cmd ++ (comma ∷ text)) lists s
      ≡ receivecommand_datanode os datanode_namenode
          (x ++ (comma ∷ (host ++ (comma ∷ (cmd ++ (comma ∷ text))))))
          lists
          s
unfolding receivecommand_server receivecommand_datanode read_message
receivecommand_server-datanode os datanode_namenode x host cmd text lists s fx fh fc no_shutdown
      no_console host_fits no_nul fits =
    let inner = cmd ++ (comma ∷ text) in
    let middle = host ++ (comma ∷ inner) in
    let clean : Lacks 0 inner =
      All-append (λ b. b ≢ 0) cmd (comma ∷ text) fc.no_nul (omega arith, no_nul) in
    let all_clean : Lacks 0 (x ++ (comma ∷ middle)) =
      All-append (λ b. b ≢ 0) x (comma ∷ middle) fx.no_nul
        (
          omega arith,
          All-append (λ b. b ≢ 0) host (comma ∷ inner) fh.no_nul (omega arith, clean),
        ) in
    let inner_fits : length inner < 1000 =
      omega (arith, length-append x (comma ∷ middle), length-append host (comma ∷ inner)) in
    rw
      (
        received-text 1000 inner clean inner_fits,
        received-text 1000 (x ++ (comma ∷ middle)) all_clean fits,
        strtok-IsField x middle fx,
        strtok-IsField host inner fh,
        within-fits 100 host host_fits,
        strtok-IsField cmd text fc,
        server_call-AgreesOn os datanode_namenode host text lists s cmd no_shutdown no_console,
      )
      (bind_host host (λ h order. serve os datanode_namenode h order lists s) (read_order cmd text))
