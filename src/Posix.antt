-- ===== src/Posix.antt =====
-- What the nodes take from their surroundings: the calls of the operating system on a state that is
-- its own, the name service, and the datagrams that a node sends (network_common.c).
use dsproj.Common.{ℕ, ℤ, Option, none, some, List, [], ◌∷◌, ◌>>=◌}
use dsproj.Text.{Bytes}

-- The result of a call and the value of errno behind it.
pub record Call : Type 0 where
  pub res : ℤ
  pub errno : ℤ

-- `struct stat`, each field as the int that "%d" prints.
pub record Stat : Type 0 where
  pub st_mode : ℤ
  pub st_ino : ℤ
  pub st_dev : ℤ
  pub st_rdev : ℤ
  pub st_nlink : ℤ
  pub st_uid : ℤ
  pub st_gid : ℤ
  pub st_size : ℤ
  pub st_atime : ℤ
  pub st_mtime : ℤ
  pub st_ctime : ℤ
  pub st_blksize : ℤ
  pub st_blocks : ℤ

-- `struct statvfs`, likewise.
pub record Statvfs : Type 0 where
  pub f_bsize : ℤ
  pub f_frsize : ℤ
  pub f_blocks : ℤ
  pub f_bfree : ℤ
  pub f_bavail : ℤ
  pub f_files : ℤ
  pub f_ffree : ℤ
  pub f_favail : ℤ
  pub f_fsid : ℤ
  pub f_flag : ℤ
  pub f_namemax : ℤ

pub record Dirent : Type 0 where
  pub d_name : Bytes
  pub d_type : ℤ
  pub d_ino : ℤ

-- The system calls over a state `S` of the machine. `open_create` is open with O_CREAT, O_EXCL and
-- O_WRONLY; `opendir` gives the entries that the readdir calls behind it return, and errno.
pub record Posix (S : Type 0) : Type 0 where
  pub stat : Bytes → S → Call × Stat × S
  pub statvfs : Bytes → S → Call × Statvfs × S
  pub access : Bytes → ℤ → S → Call × S
  pub opendir : Bytes → S → Option (List Dirent) × ℤ × S
  pub open_file : Bytes → ℤ → S → Call × S
  pub open_create : Bytes → ℤ → S → Call × S
  pub close : ℤ → S → Call × S
  pub pread : ℤ → ℤ → ℤ → S → Call × Bytes × S
  pub pwrite : ℤ → Option Bytes → ℤ → ℤ → S → Call × S
  pub mkdir : Bytes → ℤ → S → Call × S
  pub chmod : Bytes → ℤ → S → Call × S
  pub truncate : Bytes → ℤ → S → Call × S
  pub unlink : Bytes → S → Call × S
  pub rmdir : Bytes → S → Call × S
  pub rename : Bytes → Option Bytes → S → Call × S
  -- The addresses of a host name; none if the name is not known.
  pub gethostbyname : Bytes → Option (List Bytes)

-- What `hostname_to_ip` returns: -1, 1 with the buffer not written, or 0 with the address.
pub data HostIp : Type 0 where
  not_present not_written : HostIp
  found : Bytes → HostIp

first_address : Option (List Bytes) → HostIp
first_address none = not_present
first_address (some []) = not_written
first_address (some (ip ∷ _)) = found ip

pub record Datagram : Type 0 where
  pub to_ip : Bytes
  pub to_port : ℕ
  pub payload : Bytes

-- How a sending function ends: by `return -1`, or behind its `sendto`.
pub data Sent : Type 0 where
  failed : Sent
  sent : Datagram → Sent

abbrev pub command_port : ℕ
command_port = 8012

abbrev pub response_port : ℕ
response_port = 8013

module _ {S : Type 0} (os : Posix S) where
  unfoldable pub hostname_to_ip : Bytes → HostIp
  unfolding first_address
  hostname_to_ip hostname = first_address (os.gethostbyname hostname)

  -- The frame of every sending function: without an address nothing happens and -1 is returned; an
  -- address that was not written is read (undefined); else the body runs and its text is sent.
  unfoldable pub send_to : Bytes → ℕ → (S → Option (Bytes × S)) → S → Option (Sent × S)
  send_to node port body s = elim (hostname_to_ip node) [
    | not_present ↦ some (failed, s)
    | not_written ↦ none
    | found ip ↦ do
      (text, s') ← body s
      some (sent (record { to_ip = ip; to_port = port; payload = text }), s')
  ]
