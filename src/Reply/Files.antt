-- ===== src/Reply/Files.antt =====
-- The replies of socket_command.c that work on an open file: mknod, open, read and write.
use dsproj.Common.{
  ℤ, pos, negsuc, minus_one, eq_ℤ, neg, Bool, true, false, ◌&&◌, ltb, leb, if◌then◌else◌, Option,
  none, some, ◌∷◌, ◌++◌, length, ◌>>=◌,
}
use dsproj.Text.{Bytes, comma, c_str, snprintf10}
use dsproj.Posix.{Call, Posix, Sent, response_port, send_to}
use dsproj.Reply.{result_line, result_text, failure_text}

abbrev pub is_negative : ℤ → Bool
is_negative (pos n) = false
is_negative (negsuc n) = true

-- The text of a read: the bytes stand in a zeroed buffer of 4096 and are used as a C string. More
-- bytes than that, or 4096 with no NUL among them, run past the buffer.
abbrev pub read_text : Call → Bytes → Option Bytes
read_text c bytes =
    if leb (length bytes) 4096 && ltb (length (c_str bytes)) 4096
    then some (snprintf10 c.res ++ (comma ∷ (snprintf10 c.errno ++ (comma ∷ c_str bytes))))
    else none

module _ {S : Type 0} (os : Posix S) where
  -- The node is always made by open_create; `rdev` is not used. A failed open skips the close.
  unfoldable pub make_file : Bytes → ℤ → S → Call × S
  make_file path mode s =
      let (c, s') = os.open_create path mode s in
      if is_negative c.res then (c, s') else os.close c.res s'

  unfoldable pub sendresponse_mknod : Bytes → Bytes → ℤ → ℤ → S → Option (Sent × S)
  unfolding make_file
  sendresponse_mknod node path mode rdev =
      send_to os node response_port
        λ s. let (c, s') = make_file path mode s in some (result_line c, s')

  -- The errno that is sent is the one behind the close.
  unfoldable pub open_text : Bytes → ℤ → S → Bytes × S
  open_text path flags s =
      let (c, s') = os.open_file path flags s in
      let (d, s'') = os.close c.res s' in
      if eq_ℤ c.res minus_one
      then (failure_text c.errno, s')
      else (result_text (record { res = c.res; errno = d.errno }), s'')

  unfoldable pub sendresponse_open : Bytes → Bytes → ℤ → S → Option (Sent × S)
  unfolding open_text
  sendresponse_open node path flags =
      send_to os node response_port λ s. some (open_text path flags s)

  -- O_RDONLY is 0, O_WRONLY is 1.
  unfoldable pub read_file : Bytes → ℤ → ℤ → S → Option (Bytes × S)
  read_file path size offset s =
      let (c, s') = os.open_file path (pos 0) s in
      let (d, bytes, s'') = os.pread c.res size offset s' in
      let (e, s''') = os.close c.res s'' in
      if eq_ℤ c.res minus_one
      then some (failure_text c.errno, s')
      else read_text (record { res = d.res; errno = e.errno }) bytes >>= λ text. some (text, s''')

  unfoldable pub sendresponse_read : Bytes → Bytes → ℤ → ℤ → S → Option (Sent × S)
  unfolding read_file
  sendresponse_read node path size offset =
      send_to os node response_port (read_file path size offset)

  -- A failed pwrite is sent as -errno.
  unfoldable pub write_file : Bytes → ℤ → ℤ → Option Bytes → S → Bytes × S
  write_file path size offset buf s =
      let (c, s') = os.open_file path (pos 1) s in
      let (d, s'') = os.pwrite c.res buf size offset s' in
      let res = if eq_ℤ d.res minus_one then neg d.errno else d.res in
      let (e, s''') = os.close c.res s'' in
      if eq_ℤ c.res minus_one
      then (failure_text c.errno, s')
      else (result_text (record { res = res; errno = d.errno }), s''')

  unfoldable pub sendresponse_write : Bytes → Bytes → ℤ → ℤ → Option Bytes → S → Option (Sent × S)
  unfolding write_file
  sendresponse_write node path size offset buf =
      send_to os node response_port λ s. some (write_file path size offset buf s)
