-- ===== src/Client/Attr.antt =====
-- getattr and statfs of client.c, which fill a structure from the reply.
use dsproj.Common.{
  Bool, false, ◌||◌, ℤ, pos, minus_one, eq_ℤ, neg, if◌then◌else◌, Option, none, some, ◌>>=◌,
}
use dsproj.Text.{Bytes, codes, c_str}
use dsproj.Posix.{Posix, Stat, Statvfs, Sent, failed, sent}
use dsproj.Client.{
  Answer, within, my_path, received, number, transact, with_reply_into, sendcommand, flag_of,
}
use dsproj.Wait.{wait_flag}

-- The numbers in the order in which they are read.
unfoldable pub read_stat : Bytes → Option Stat
read_stat s = do
  (mode, s) ← number s
  (ino, s) ← number s
  (dev, s) ← number s
  (rdev, s) ← number s
  (nlink, s) ← number s
  (uid, s) ← number s
  (gid, s) ← number s
  (size, s) ← number s
  (atime, s) ← number s
  (mtime, s) ← number s
  (ctime, s) ← number s
  (blksize, s) ← number s
  (blocks, s) ← number s
  some (record {
    st_mode = mode;
    st_ino = ino;
    st_dev = dev;
    st_rdev = rdev;
    st_nlink = nlink;
    st_uid = uid;
    st_gid = gid;
    st_size = size;
    st_atime = atime;
    st_mtime = mtime;
    st_ctime = ctime;
    st_blksize = blksize;
    st_blocks = blocks;
  })

-- The result of getattr and the stat that it fills in.
unfoldable pub read_getattr : Bytes → Option (ℤ × Option Stat)
read_getattr buf = do
  (res, s) ← number buf
  (errno, s) ← number s
  if eq_ℤ res minus_one
      then some (neg errno, none)
      else (read_stat s >>= λ st. some (pos 0, some st))

unfoldable pub read_statvfs : Bytes → Option Statvfs
read_statvfs s = do
  (bsize, s) ← number s
  (frsize, s) ← number s
  (blocks, s) ← number s
  (bfree, s) ← number s
  (bavail, s) ← number s
  (files, s) ← number s
  (ffree, s) ← number s
  (favail, s) ← number s
  (fsid, s) ← number s
  (flag, s) ← number s
  (namemax, s) ← number s
  some (record {
    f_bsize = bsize;
    f_frsize = frsize;
    f_blocks = blocks;
    f_bfree = bfree;
    f_bavail = bavail;
    f_files = files;
    f_ffree = ffree;
    f_favail = favail;
    f_fsid = fsid;
    f_flag = flag;
    f_namemax = namemax;
  })

unfoldable pub read_statfs : Bytes → Option (ℤ × Option Statvfs)
read_statfs buf = do
  (res, s) ← number buf
  (errno, s) ← number s
  if eq_ℤ res minus_one
      then some (neg errno, none)
      else (read_statvfs s >>= λ st. some (pos 0, some st))

module _ {S : Type 0} (os : Posix S) (namenode : Bytes) (answer : Answer) where
  abbrev statfs_ready : Bool → Sent → Bool
  statfs_ready was_set failed = false
  statfs_ready was_set (sent d) = wait_flag (λ test. was_set || flag_of (answer d) test)

  unfoldable pub my_getattr : Bytes → S → Option (ℤ × Option Stat)
  unfolding read_getattr
  my_getattr path s = do
    text ← within 100 (my_path path)
    r ← transact os namenode answer (codes "getattr") text s
    with_reply_into (λ msg. received 1000 msg >>= read_getattr) r

  -- The command is "write": the reply goes to write_retbuf, and statvfs_retbuf is read as it was. Unlike
  -- the other operations, this one does not reset clientreceive_success before the wait: `was_set` is
  -- whether an earlier operation left it set.
  unfoldable pub xmp_statfs : Bytes → Bool → Bytes → S → Option (ℤ × Option Statvfs)
  unfolding read_statfs
  xmp_statfs path was_set statvfs_retbuf s = do
    text ← within 100 (my_path path)
    (outcome, _) ← sendcommand os namenode text (codes "write") s
    let filled = within 1000 (c_str statvfs_retbuf) >>= read_statfs
    if statfs_ready was_set outcome then filled else some (minus_one, none)
