-- ===== src/Witness/Replica.antt =====
-- A concrete copy.
use dsproj.Common.{ℕ, ◌+◌, ◌%◌, ◌^◌, some, none, [], ◌∷◌, ◌≡◌, ap, refl, arith, length, replicate}
use dsproj.Text.{Bytes, codes, comma}
use dsproj.Posix.{Posix, hostname_to_ip}
use dsproj.Dispatch.Request.{all_differ-Lacks}
use dsproj.Replica.{Stdio, no_value, write_replica, create_replica}
use dsproj.Replica.Peers.{Peer, two_nodes}
use dsproj.Replica.Copy.{create_replica-copied, write_replica_overflow}
use dsproj.Witness.{ok, plain, stored}

-- Streams whose state is the number of the bytes written.
abbrev streams : Stdio ℕ ℕ
streams = record {
  fopen = λ path s. (some 1, 0);
  through_int = λ f. some (f % 2 ^ 32);
  fwrite = λ text f s. (ok, s + length text);
  fclose = λ f s. s;
}

-- The first datanode's name is empty.
abbrev by_length : Posix ℕ
by_length = record plain {
  gethostbyname =
      λ name. some (elim name [ [] ↦ codes "10.0.0.1" | _ ∷ _ ↦ codes "10.0.0.12" ] ∷ []);
}

abbrev first_peer : Peer ℕ ℕ
first_peer = record { os = plain; io = streams; ip = codes "10.0.0.1"; host = codes "nn" }

abbrev second_peer : Peer ℕ ℕ
second_peer = record { os = plain; io = streams; ip = codes "10.0.0.12"; host = codes "nn" }

create_replica-copied_example :
    (p' : ℕ) × (create_replica by_length
        (two_nodes first_peer second_peer (codes "10.0.0.1") 5)
        stored
        []
        (codes "n2")
        0
        (0, 7)
      ≡ some (no_value, (p', 3)))
unfolding hostname_to_ip
create_replica-copied_example =
    create_replica-copied by_length first_peer second_peer (codes "10.0.0.1") [] (codes "n2") stored
      5 0 0 7 refl refl refl refl (λ e. (let sizes = ap length e in absurd (omega arith)))
      (omega arith)
      (record {
        no_comma = all_differ-Lacks comma stored refl;
        no_nul = all_differ-Lacks 0 stored refl;
        not_empty = λ e. cc;
      })
      1
      (record {
        no_comma = all_differ-Lacks comma (codes "abc") refl;
        no_nul = all_differ-Lacks 0 (codes "abc") refl;
        not_empty = λ e. cc;
      })
      (omega arith) (λ e. cc) (λ e. cc) (omega arith) (omega arith, omega arith) refl refl

abbrev long_text : Bytes
long_text = replicate 990 b'x'

write_replica_overflow_example :
    write_replica plain
      (two_nodes first_peer second_peer (codes "10.0.0.1") 5)
      stored
      (codes "n2")
      long_text
      0
      (0, 0)
    ≡ none
unfolding hostname_to_ip
write_replica_overflow_example =
    write_replica_overflow plain (two_nodes first_peer second_peer (codes "10.0.0.1") 5) stored
      (codes "n2") long_text 0 (0, 0) refl (omega arith)
