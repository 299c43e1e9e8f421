-- ===== src/Witness.antt =====
-- Concrete runs of the theorems, on a machine where every call succeeds.
mod Replies
mod Lists
mod Orders
mod Route
mod Network
mod Ping
mod Config
mod Folders
mod Replica
mod Monitor
mod Startup
mod Store
mod Run
mod Remove
use dsproj.Common.{ℕ, ℤ, pos, neg, Option, none, some, [], ◌∷◌, minus_one}
use dsproj.Text.{Bytes, codes}
use dsproj.Posix.{Call, Stat, Statvfs, Dirent, Posix, Datagram}

abbrev pub ok : Call
ok = record { res = pos 0; errno = pos 0 }

abbrev pub refused : Call
refused = record { res = minus_one; errno = pos 2 }

abbrev pub a_stat : Stat
a_stat = record {
  st_mode = pos 33188;
  st_ino = pos 12;
  st_dev = pos 1;
  st_rdev = pos 0;
  st_nlink = pos 1;
  st_uid = pos 0;
  st_gid = pos 0;
  st_size = pos 5;
  st_atime = pos 7;
  st_mtime = pos 8;
  st_ctime = pos 9;
  st_blksize = pos 4096;
  st_blocks = pos 1;
}

abbrev pub a_recent_stat : Stat
a_recent_stat = record a_stat { st_mtime = pos 1400000005 }

abbrev pub an_entry : Dirent
an_entry = record { d_name = codes "a"; d_type = pos 8; d_ino = pos 12 }

-- A machine with that stat and those bytes in every file.
abbrev pub machine : Stat → Bytes → Posix ℕ
machine st bytes = record {
  stat = λ path s. (ok, st, s);
  statvfs = λ path s. (
    ok,
    record {
      f_bsize = pos 4096;
      f_frsize = pos 4096;
      f_blocks = pos 9;
      f_bfree = pos 8;
      f_bavail = pos 7;
      f_files = pos 6;
      f_ffree = pos 5;
      f_favail = pos 4;
      f_fsid = pos 3;
      f_flag = pos 2;
      f_namemax = pos 255;
    },
    s,
  );
  access = λ path mask s. (refused, s);
  opendir = λ path s. (some (an_entry ∷ []), pos 0, s);
  open_file = λ path flags s. (record { res = pos 3; errno = pos 0 }, s);
  open_create = λ path mode s. (record { res = pos 3; errno = pos 0 }, s);
  close = λ fd s. (ok, s);
  pread = λ fd size offset s. (record { res = pos 3; errno = pos 0 }, bytes, s);
  pwrite = λ fd buf size offset s. (record { res = pos 3; errno = pos 0 }, s);
  mkdir = λ path mode s. (ok, s);
  chmod = λ path mode s. (ok, s);
  truncate = λ path size s. (ok, s);
  unlink = λ path s. (ok, s);
  rmdir = λ path s. (ok, s);
  rename = λ path dpath s. (ok, s);
  gethostbyname = λ name. some (codes "10.0.0.1" ∷ []);
}

abbrev pub plain : Posix ℕ
plain = machine a_stat (codes "abc")

abbrev pub node_name : Bytes
node_name = codes "n1"

abbrev pub file : Bytes
file = codes "/f"

abbrev pub stored : Bytes
stored = codes "/tmp/CS545/datanode/f"

abbrev pub reply : Bytes → Datagram
reply text = record { to_ip = codes "10.0.0.1"; to_port = 8013; payload = text }
