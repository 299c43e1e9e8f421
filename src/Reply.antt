-- ===== src/Reply.antt =====
-- The replies of a datanode (and of the namenode, for what it answers itself): the `sendresponse_`
-- functions of socket_command.c. Each asks the operating system and sends the result as text. The
-- texts of the fixed buffers of 30 and 100 bytes hold two numbers, and fit.
pub mod Files
use dsproj.Common.{
  ℕ, ◌+◌, ℤ, pos, minus_one, eq_ℤ, neg, Bool, true, false, ◌&&◌, ltb, leb, if◌then◌else◌, Option,
  none, some, List, [], ◌∷◌, ◌++◌, map, length, ◌>>=◌, ◌>>◌, defined_if,
}
pub use dsproj.Text.{within}
use dsproj.Text.{Bytes, codes, comma, c_str, snprintf10, csv}
use dsproj.Posix.{Call, Stat, Statvfs, Dirent, Posix, Sent, response_port, send_to}

-- "res,errno"
abbrev pub result_text : Call → Bytes
result_text c = snprintf10 c.res ++ (comma ∷ snprintf10 c.errno)

-- "res,errno,"
abbrev pub result_line : Call → Bytes
result_line c = csv (snprintf10 c.res ∷ snprintf10 c.errno ∷ [])

-- "-1,errno"
abbrev pub failure_text : ℤ → Bytes
failure_text errno = codes "-1," ++ snprintf10 errno

-- "Y,errno" for a failure, "N,errno" for a success.
abbrev pub flag_text : Call → Bytes
flag_text c = (if eq_ℤ c.res minus_one then b'Y' else b'N') ∷ comma ∷ snprintf10 c.errno

-- The numbers with a comma between them.
abbrev pub comma_list : List ℤ → Bytes
comma_list [] = []
comma_list (v ∷ []) = snprintf10 v
comma_list (v ∷ w ∷ vs) = snprintf10 v ++ (comma ∷ comma_list (w ∷ vs))

abbrev pub stat_fields : Stat → List ℤ
stat_fields st =
    st.st_mode ∷ st.st_ino ∷ st.st_dev ∷ st.st_rdev ∷ st.st_nlink ∷ st.st_uid ∷ st.st_gid
    ∷ st.st_size ∷ st.st_atime ∷ st.st_mtime ∷ st.st_ctime ∷ st.st_blksize ∷ st.st_blocks ∷ []

abbrev pub statvfs_fields : Statvfs → List ℤ
statvfs_fields st =
    st.f_bsize ∷ st.f_frsize ∷ st.f_blocks ∷ st.f_bfree ∷ st.f_bavail ∷ st.f_files ∷ st.f_ffree
    ∷ st.f_favail ∷ st.f_fsid ∷ st.f_flag ∷ st.f_namemax ∷ []

abbrev pub getattr_text : Call → Stat → Bytes
getattr_text c st =
    if eq_ℤ c.res minus_one
    then failure_text c.errno
    else comma_list (c.res ∷ c.errno ∷ stat_fields st)

abbrev pub statfs_text : Call → Statvfs → Bytes
statfs_text c st =
    result_line c
    ++ (if eq_ℤ c.res minus_one then [] else csv (map snprintf10 (statvfs_fields st)))
    ++ csv (snprintf10 c.errno ∷ [])

-- Each entry as "name,type,inode,".
abbrev pub entries_text : List Dirent → Bytes
entries_text [] = []
entries_text (de ∷ des) =
    de.d_name
    ++ (comma
        ∷ (snprintf10 de.d_type ++ (comma ∷ (snprintf10 de.d_ino ++ (comma ∷ entries_text des)))))

abbrev pub readdir_text : Option (List Dirent) → ℤ → Bytes
readdir_text none errno = csv (snprintf10 errno ∷ [])
readdir_text (some des) errno = snprintf10 errno ++ (comma ∷ entries_text des)

module _ {S : Type 0} (os : Posix S) where
  unfoldable pub sendresponse_chmod : Bytes → Bytes → ℤ → S → Option (Sent × S)
  sendresponse_chmod node path imode =
      send_to os node response_port
        λ s. let (c, s') = os.chmod path imode s in some (flag_text c, s')

  unfoldable pub sendresponse_rename : Bytes → Bytes → Option Bytes → S → Option (Sent × S)
  sendresponse_rename node path dpath =
      send_to os node response_port
        λ s. let (c, s') = os.rename path dpath s in some (flag_text c, s')

  unfoldable pub sendresponse_statfs : Bytes → Bytes → S → Option (Sent × S)
  sendresponse_statfs node path =
      send_to os node response_port
        λ s. let (c, st, s') = os.statvfs path s in some (statfs_text c st, s')

  unfoldable pub sendresponse_rmdir : Bytes → Bytes → S → Option (Sent × S)
  sendresponse_rmdir node path =
      send_to os node response_port λ s. let (c, s') = os.rmdir path s in some (result_line c, s')

  unfoldable pub sendresponse_unlink : Bytes → Bytes → S → Option (Sent × S)
  sendresponse_unlink node path =
      send_to os node response_port λ s. let (c, s') = os.unlink path s in some (result_line c, s')

  unfoldable pub sendresponse_truncate : Bytes → Bytes → ℤ → S → Option (Sent × S)
  sendresponse_truncate node path size =
      send_to os node response_port
        λ s. let (c, s') = os.truncate path size s in some (result_line c, s')

  unfoldable pub sendresponse_access : Bytes → Bytes → ℤ → S → Option (Sent × S)
  sendresponse_access node path mask =
      send_to os node response_port
        λ s. let (c, s') = os.access path mask s in some (result_text c, s')

  unfoldable pub sendresponse_readdir : Bytes → Bytes → S → Option (Sent × S)
  sendresponse_readdir node path = send_to os node response_port λ s.
      let (des, errno, s') = os.opendir path s in
      within 10000 (readdir_text des errno) >>= λ text. some (text, s')

  unfoldable pub sendresponse_mkdir : Bytes → Bytes → ℤ → S → Option (Sent × S)
  sendresponse_mkdir node path imode =
      send_to os node response_port
        λ s. let (c, s') = os.mkdir path imode s in some (flag_text c, s')

  unfoldable pub sendresponse_getattr : Bytes → Bytes → S → Option (Sent × S)
  sendresponse_getattr node path =
      send_to os node response_port
        λ s. let (c, st, s') = os.stat path s in some (getattr_text c st, s')
