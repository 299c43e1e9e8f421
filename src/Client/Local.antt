-- ===== src/Client/Local.antt =====
-- The operations of client.c that ask nobody: they make the call on the machine of the client itself,
-- with the path as FUSE gives it, or do nothing. `none` is a write past the buffer of FUSE.
use dsproj.Common.{
  ℕ, ◌+◌, ◌-◌, ◌^◌, ◌/◌, ◌%◌, ltb, ℤ, pos, negsuc, minus_one, eq_ℤ, neg, if◌then◌else◌, Option,
  none, some, ◌++◌, set, drop, length, ◌>>=◌, ◌>>◌, defined_if,
}
use dsproj.Text.{Bytes}
use dsproj.Posix.{Call}

-- A time in seconds and nanoseconds, or microseconds.
abbrev pub Time : Type 0
Time = ℤ × ℕ

-- The calls that these operations make. `readlink` gives the bytes that it puts in the buffer.
pub record Local (S : Type 0) : Type 0 where
  pub readlink : Bytes → ℕ → S → Call × Bytes × S
  pub symlink : Bytes → Bytes → S → Call × S
  pub link : Bytes → Bytes → S → Call × S
  pub lchown : Bytes → ℕ → ℕ → S → Call × S
  pub utimes : Bytes → Time → Time → S → Call × S
  pub lsetxattr : Bytes → Bytes → Bytes → ℕ → ℤ → S → Call × S
  pub lgetxattr : Bytes → Bytes → ℕ → S → Call × Bytes × S
  pub llistxattr : Bytes → ℕ → S → Call × Bytes × S
  pub lremovexattr : Bytes → Bytes → S → Call × S

-- `if (res == -1) return -errno; return 0;`, and with the result itself in place of 0.
abbrev pub status : Call → ℤ
status c = if eq_ℤ c.res minus_one then neg c.errno else pos 0

abbrev pub count_or_error : Call → ℤ
count_or_error c = if eq_ℤ c.res minus_one then neg c.errno else c.res

-- What an `int` holds of a number that is given to it: the last 32 bits, the first of them as the sign.
unfoldable pub signed : ℕ → ℤ
signed n = if ltb n (2 ^ 31) then pos n else negsuc (2 ^ 32 - 1 - n)

unfoldable pub to_int : ℤ → ℤ
unfolding signed
to_int (pos n) = signed (n % 2 ^ 32)
to_int (negsuc n) = signed (2 ^ 32 - 1 - n % 2 ^ 32)

-- The buffer behind a call that put those bytes in it.
abbrev pub filled : Bytes → Bytes → Bytes
filled buf bytes = bytes ++ drop (length bytes) buf

-- `buf[i] = '\0'`
abbrev pub end_at : Bytes → ℤ → Option Bytes
end_at buf (pos i) = defined_if (ltb i (length buf)) >> some (set buf i 0)
end_at buf (negsuc i) = none

module _ {S : Type 0} (local : Local S) where
  -- `size - 1` is a size_t: it wraps around. `res` is an int.
  unfoldable pub xmp_readlink : Bytes → Bytes → ℕ → S → Option (ℤ × Bytes × S)
  xmp_readlink path buf size s =
      let (c, bytes, s1) = local.readlink path ((size + (2 ^ 64 - 1)) % 2 ^ 64) s in
      let res = to_int c.res in
      let ended : Option (ℤ × Bytes × S) =
        (end_at (filled buf bytes) res >>= λ buf. some (pos 0, buf, s1)) in
      if eq_ℤ res minus_one then some (neg c.errno, buf, s1) else ended

  abbrev pub xmp_symlink : Bytes → Bytes → S → ℤ × S
  xmp_symlink from to s = let (c, s1) = local.symlink from to s in (status c, s1)

  abbrev pub xmp_link : Bytes → Bytes → S → ℤ × S
  xmp_link from to s = let (c, s1) = local.link from to s in (status c, s1)

  abbrev pub xmp_chown : Bytes → ℕ → ℕ → S → ℤ × S
  xmp_chown path uid gid s = let (c, s1) = local.lchown path uid gid s in (status c, s1)

  abbrev pub micros : Time → Time
  micros (sec, nsec) = (sec, nsec / 1000)

  unfoldable xmp_utimens : Bytes → Time → Time → S → ℤ × S
  xmp_utimens path ts0 ts1 s =
      let (c, s1) = local.utimes path (micros ts0) (micros ts1) s in (status c, s1)

  abbrev pub xmp_release : Bytes → S → ℤ × S
  xmp_release path s = (pos 0, s)

  abbrev pub xmp_fsync : Bytes → ℤ → S → ℤ × S
  xmp_fsync path isdatasync s = (pos 0, s)

  abbrev pub xmp_setxattr : Bytes → Bytes → Bytes → ℕ → ℤ → S → ℤ × S
  xmp_setxattr path name value size flags s =
      let (c, s1) = local.lsetxattr path name value size flags s in (status c, s1)

  abbrev pub xmp_getxattr : Bytes → Bytes → Bytes → ℕ → S → ℤ × Bytes × S
  xmp_getxattr path name value size s =
      let (c, bytes, s1) = local.lgetxattr path name size s in
      (count_or_error c, filled value bytes, s1)

  abbrev pub xmp_listxattr : Bytes → Bytes → ℕ → S → ℤ × Bytes × S
  xmp_listxattr path list size s =
      let (c, bytes, s1) = local.llistxattr path size s in (count_or_error c, filled list bytes, s1)

  abbrev pub xmp_removexattr : Bytes → Bytes → S → ℤ × S
  xmp_removexattr path name s = let (c, s1) = local.lremovexattr path name s in (status c, s1)
