-- ===== src/Client.antt =====
-- The file system operations of client.c: each sends a command with the path under the datanodes'
-- folder to the namenode, waits for the reply and turns its text into the result for FUSE.
-- `none` is undefined behaviour: a text past its array, or atoi(NULL).
pub mod Status
pub mod Flag
pub mod Attr
pub mod Dir
pub mod Files
pub mod Local
use dsproj.Common.{
  ℕ, ◌+◌, ℤ, pos, minus_one, eq_ℤ, neg, Bool, true, false, ◌&&◌, ltb, leb, ◌==◌, if◌then◌else◌,
  Option, none, some, List, [], ◌∷◌, ◌++◌, take, drop, length, ◌>>=◌, ◌>>◌, defined_if,
}
pub use dsproj.Text.{within, number}
use dsproj.Text.{Bytes, codes, comma, c_str, snprintf10, strtok, atoi}
use dsproj.Wait.{wait_flag}
use dsproj.Posix.{Posix, Sent, failed, sent, Datagram, command_port, send_to}

-- char tmp_path[100]
abbrev pub tmp_path : Bytes
tmp_path = codes "/tmp/CS545/datanode"

-- The path of the request, and what some operations append to it.
abbrev pub my_path : Bytes → Bytes
my_path path = tmp_path ++ path

-- What the receiving thread hears: nothing, or a datagram that is there from some test of the flag on.
abbrev pub Answer : Type 0
Answer = Datagram → Option (ℕ × Bytes)

-- How the wait for a reply ends: with -1 to FUSE, or with the bytes of the datagram.
pub data Reply : Type 0 where
  no_reply : Reply
  got : Bytes → Reply

-- An array of that size which was zeroed and then received the datagram, as a C string. With no NUL
-- left in it a reader runs past its end.
abbrev pub received : ℕ → Bytes → Option Bytes
received size msg = within size (c_str (take size msg))

-- The same without zeroing: the old bytes stay behind a shorter datagram.
abbrev pub received_over : ℕ → Bytes → Bytes → Option Bytes
received_over size old msg =
    let msg = take size msg in within size (c_str (take size (msg ++ drop (length msg) old)))

-- The end of most operations: `res` and `errno` are read, and -1 gives -errno.
abbrev pub status_of : Bytes → Option ℤ
status_of buf = do
  (res, s) ← number buf
  (errno, _) ← number s
  some (if eq_ℤ res minus_one then neg errno else pos 0)

module _ {S : Type 0} (os : Posix S) where
  -- buf[1000] = cmd "," path
  unfoldable pub sendcommand : Bytes → Bytes → Bytes → S → Option (Sent × S)
  sendcommand node path cmd =
      send_to os node command_port
        λ s. do text ← within 1000 (cmd ++ (comma ∷ path)); some (text, s)

-- When the receiving thread sets `clientreceive_success`, by the tests of the waiting loop.
abbrev pub flag_of : Option (ℕ × Bytes) → ℕ → Bool
flag_of none test = false
flag_of (some (first, _)) test = leb first test

reply_of : Option (ℕ × Bytes) → Reply
reply_of none = no_reply
reply_of (some (_, msg)) = got msg

unfoldable pub await : Answer → Sent → Reply
unfolding reply_of
await answer failed = no_reply
await answer (sent d) = if wait_flag (flag_of (answer d)) then reply_of (answer d) else no_reply

module _ {S : Type 0} (os : Posix S) where
  -- The common part of the operations: the command is sent to the namenode, and the reply awaited.
  unfoldable pub transact : Bytes → Answer → Bytes → Bytes → S → Option Reply
  transact namenode answer cmd text s = do
    (outcome, _) ← sendcommand os namenode text cmd s
    some (await answer outcome)

-- -1 to FUSE without a reply.
abbrev pub with_reply : (Bytes → Option ℤ) → Reply → Option ℤ
with_reply use_reply no_reply = some minus_one
with_reply use_reply (got msg) = use_reply msg

abbrev pub with_reply_into :
    {A : Type 0} → (Bytes → Option (ℤ × Option A)) → Reply → Option (ℤ × Option A)
with_reply_into use_reply no_reply = some (minus_one, none)
with_reply_into use_reply (got msg) = use_reply msg
