-- ===== src/RoundTrip/Dir.antt =====
-- readdir: the entries that reach the client (sendresponse_readdir and xmp_readdir).
use dsproj.Common.{
  subst, ℕ, zero, suc, ◌+◌, ◌*◌, ◌^◌, lt→ltb, refl, negsuc, ◌<◌, ◌≤◌, ◌≡◌, ◌≢◌, ◌∙◌, ap, arith, ℤ,
  some, List, [], ◌∷◌, ◌++◌, length, length-append, All, All-append, ◌>>=◌, pos,
}
use dsproj.Text.{Bytes, comma, codes, snprintf10, Lacks}
use dsproj.Text.Number.{IsShort, IsField, snprintf10-IsField}
use dsproj.Posix.{Posix, sent, Datagram, found, hostname_to_ip, response_port}
use dsproj.Posix.{Dirent}
use dsproj.Reply.{readdir_text, entries_text, sendresponse_readdir}
use dsproj.Client.{my_path, received, within}
use dsproj.Client.Dir.{Filled, shift12, read_entries, read_readdir, xmp_readdir}
use dsproj.RoundTrip.Buffer.{number-field, received-text, strtok-IsField, within-fits}
use dsproj.RoundTrip.Exchange.{replies, operation_into-replies, body_of_sent}
use dsproj.Text.Token.{strtok-nil}
use dsproj.Common.{map}

-- An entry that the protocol carries: its name is a field below 100 bytes, its numbers are short, and
-- its inode is below 2^19.
pub record IsPlain (de : Dirent) : Type 0 where
  pub name : IsField de.d_name
  pub name_fits : length de.d_name < 100
  pub short_type : IsShort de.d_type
  pub short_ino : IsShort de.d_ino
  pub ino : ℕ
  pub ino_same : de.d_ino ≡ pos ino
  pub ino_small : ino < 524288

abbrev pub times_4096 : ℤ → ℤ
times_4096 (pos n) = pos (n * 4096)
times_4096 (negsuc n) = negsuc (n * 4096 + 4095)

shift12-small : (v : ℤ) (n : ℕ) → v ≡ pos n → n < 524288 → shift12 v ≡ some (times_4096 v)
unfolding shift12
shift12-small v n same small = rw same (rw (lt→ltb (n * 2 ^ 12) (2 ^ 31) (omega arith)) refl)

-- What the client makes of an entry: the type is taken for the inode, and the inode,
-- times 4096, for the type.
abbrev pub crossed : Dirent → Filled
crossed de = record { name = de.d_name; st_ino = de.d_type; st_mode = times_4096 de.d_ino }

read_entries-text :
    (fuel : ℕ) (des : List Dirent)
    → length des < fuel
    → All IsPlain des
    → read_entries fuel (entries_text des) ≡ some (map crossed des)
unfolding read_entries
read_entries-text zero des h all = elim h [ ]
read_entries-text (suc fuel) [] h all = rw (strtok-nil comma, read_entries)
read_entries-text (suc fuel) (de ∷ des) h (p, all) =
    rw
      (
        strtok-IsField de.d_name
            (snprintf10 de.d_type ++ (comma ∷ (snprintf10 de.d_ino ++ (comma ∷ entries_text des))))
            p.name,
        read_entries,
      )
      (rw
        (
          within-fits 100 de.d_name p.name_fits,
          number-field de.d_type (snprintf10 de.d_ino ++ (comma ∷ entries_text des)) p.short_type,
        )
        (rw (
          number-field de.d_ino (entries_text des) p.short_ino,
          shift12-small de.d_ino p.ino p.ino_same p.ino_small,
          read_entries-text fuel des (omega arith) all,
        )))

length-entries_text : (des : List Dirent) → length des ≤ length (entries_text des)
length-entries_text [] = omega arith
length-entries_text (de ∷ des) =
    rw (length-append, length-append, length-append) (omega (arith, length-entries_text des))

entries_text-Lacks : (des : List Dirent) → All IsPlain des → Lacks 0 (entries_text des)
entries_text-Lacks [] h = tt
entries_text-Lacks (de ∷ des) (p, all) =
    All-append (λ c. c ≢ 0) de.d_name _ p.name.no_nul
      (
        omega arith,
        All-append (λ c. c ≢ 0) (snprintf10 de.d_type) _ (snprintf10-IsField de.d_type).no_nul
            (
              omega arith,
              All-append (λ c. c ≢ 0) (snprintf10 de.d_ino) _ (snprintf10-IsField de.d_ino).no_nul
                  (omega arith, entries_text-Lacks des all),
            ),
      )

within-inv :
    {R : Type 0} (size : ℕ) (text : Bytes) (r : R) {r' : R} {sent_text : Bytes}
    → ◌>>=◌ {B = Bytes × R} (within size text) (λ t. some (t, r)) ≡ some (sent_text, r')
    → (sent_text ≡ text) × (length text < size)
within-inv size text r h = ground arith

read_readdir-text :
    (des : List Dirent) (errno : ℤ)
    → IsShort errno
    → All IsPlain des
    → read_readdir (readdir_text (some des) errno) ≡ some (pos 0, some (map crossed des))
unfolding read_readdir
read_readdir-text des errno h all = rw (number-field errno (entries_text des) h) (
    rw (
      read_entries-text (suc (length (entries_text des))) des
        (omega (arith, length-entries_text des)) all))

readdir_text-Lacks :
    (des : List Dirent) (errno : ℤ) → All IsPlain des → Lacks 0 (readdir_text (some des) errno)
readdir_text-Lacks des errno h =
    All-append (λ c. c ≢ 0) (snprintf10 errno) _ (snprintf10-IsField errno).no_nul
      (omega arith, entries_text-Lacks des h)

module _ {S R : Type 0} (os : Posix S) (dn : Posix R) (namenode path host dpath : Bytes) (first : ℕ)
    (s : S) (r : R) {ip : Bytes} (resolved : hostname_to_ip os namenode ≡ found ip)
    (in_time : first ≤ 100) (d : Datagram) {r' : R} where
  -- If the folder was opened on the datanode, readdir gives FUSE every entry of it, once and in
  -- order, by its name; but with the type of the entry as its inode, and the inode, times 4096, as
  -- its type. The
  -- namenode has an address, the request fits its buffer and the reply is there within the wait;
  -- the names are not empty, have no comma and are below 100 bytes, the numbers have at most
  -- nine characters, and the inodes are below 2^19, so that the shift by 12 stays in an int.
  pub xmp_readdir-sendresponse_readdir :
      (des : List Dirent)
      → length (my_path path) < 100
      → sendresponse_readdir dn host dpath r ≡ some (sent d, r')
      → (dn.opendir dpath r).0 ≡ some des
      → IsShort (dn.opendir dpath r).1
      → All IsPlain des
      → xmp_readdir os namenode (replies first d.payload) path s
        ≡ some (pos 0, some (map crossed des))
  unfolding xmp_readdir sendresponse_readdir
  xmp_readdir-sendresponse_readdir des fits replied opened short plain =
      operation_into-replies os namenode first s resolved in_time 100 d.payload (codes "readdir")
        (my_path path) (λ msg. received 10000 msg >>= read_readdir) fits (omega arith)
      ∙ (let (same_text, in_buffer) =
            within-inv 10000 (readdir_text (dn.opendir dpath r).0 (dn.opendir dpath r).1)
              (dn.opendir dpath r).2 (body_of_sent dn host response_port _ r d replied) in
          let whole : readdir_text (dn.opendir dpath r).0 (dn.opendir dpath r).1
              ≡ readdir_text (some des) (dn.opendir dpath r).1 =
            ap (λ o. readdir_text o (dn.opendir dpath r).1) opened in
          rw
            (
              same_text ∙ whole,
              received-text 10000 (readdir_text (some des) (dn.opendir dpath r).1)
                  (readdir_text-Lacks des (dn.opendir dpath r).1 plain)
                  (subst (λ t. length t < 10000) whole in_buffer),
            )
            (read_readdir-text des (dn.opendir dpath r).1 short plain))
