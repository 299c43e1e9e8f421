-- ===== src/Dispatch/Request.antt =====
-- The requests of client.c as they reach a datanode: the text that the operation builds, behind the
-- command and the host that the namenode puts before it, and the call that is meant.
use dsproj.Common.{
  ℕ, ℤ, Bool, true, false, if◌then◌else◌, some, [], ◌∷◌, ◌++◌, ◌==◌, ◌≡◌, ◌≢◌, All-append,
  Bool-cases, inl, inr, arith, refl,
}
use dsproj.Text.{Bytes, codes, comma, Lacks}
use dsproj.Text.Number.{IsShort, IsField}
use dsproj.Client.{tmp_path, my_path}
use dsproj.Client.Status.{access_request, mknod_request, open_request}
use dsproj.Client.Flag.{mode_request, rename_request}
use dsproj.Client.Files.{read_request, write_request}
use dsproj.Dispatch.{Order}

pub data Request : Type 0 where
  ask_getattr ask_readdir ask_unlink ask_rmdir : Bytes → Request
  ask_access ask_open ask_mkdir ask_chmod : Bytes → ℤ → Request
  ask_read ask_mknod : Bytes → ℤ → ℤ → Request
  ask_write : Bytes → Bytes → ℤ → ℤ → Request
  ask_rename : Bytes → Bytes → Request

-- The command, and the text behind it as the operation builds it.
abbrev pub request_command : Request → Bytes
request_command (ask_getattr path) = codes "getattr"
request_command (ask_readdir path) = codes "readdir"
request_command (ask_unlink path) = codes "unlink"
request_command (ask_rmdir path) = codes "rmdir"
request_command (ask_access path mask) = codes "access"
request_command (ask_open path flags) = codes "open"
request_command (ask_mkdir path mode) = codes "mkdir"
request_command (ask_chmod path mode) = codes "chmod"
request_command (ask_read path size offset) = codes "read"
request_command (ask_mknod path mode rdev) = codes "mknod"
request_command (ask_write path buf size offset) = codes "write"
request_command (ask_rename path to) = codes "rename"

abbrev pub request_text : Request → Bytes
request_text (ask_getattr path) = my_path path
request_text (ask_readdir path) = my_path path
request_text (ask_unlink path) = my_path path
request_text (ask_rmdir path) = my_path path
request_text (ask_access path mask) = access_request path mask
request_text (ask_open path flags) = open_request path flags
request_text (ask_mkdir path mode) = mode_request path mode
request_text (ask_chmod path mode) = mode_request path mode
request_text (ask_read path size offset) = read_request path size offset
request_text (ask_mknod path mode rdev) = mknod_request path mode rdev
request_text (ask_write path buf size offset) = write_request path buf size offset
request_text (ask_rename path to) = rename_request path to

abbrev pub meant : Request → Order
meant (ask_getattr path) = Order.getattr (my_path path)
meant (ask_readdir path) = Order.readdir (my_path path)
meant (ask_unlink path) = Order.unlink (my_path path)
meant (ask_rmdir path) = Order.rmdir (my_path path)
meant (ask_access path mask) = Order.access (my_path path) mask
meant (ask_open path flags) = Order.open_path (my_path path) flags
meant (ask_mkdir path mode) = Order.mkdir (my_path path) mode
meant (ask_chmod path mode) = Order.chmod (my_path path) mode
meant (ask_read path size offset) = Order.read (my_path path) size offset
meant (ask_mknod path mode rdev) = Order.mknod (my_path path) mode rdev
meant (ask_write path buf size offset) = Order.write (my_path path) size offset (some buf)
meant (ask_rename path to) = Order.rename (my_path path) (some (my_path to))

-- No comma in the paths and the data, data that are not empty, and numbers that the text holds whole.
abbrev pub IsPlainRequest : Request → Type 0
IsPlainRequest (ask_getattr path) = Lacks comma path
IsPlainRequest (ask_readdir path) = Lacks comma path
IsPlainRequest (ask_unlink path) = Lacks comma path
IsPlainRequest (ask_rmdir path) = Lacks comma path
IsPlainRequest (ask_access path mask) = Lacks comma path × IsShort mask
IsPlainRequest (ask_open path flags) = Lacks comma path × IsShort flags
IsPlainRequest (ask_mkdir path mode) = Lacks comma path × IsShort mode
IsPlainRequest (ask_chmod path mode) = Lacks comma path × IsShort mode
IsPlainRequest (ask_read path size offset) = Lacks comma path × IsShort size × IsShort offset
IsPlainRequest (ask_mknod path mode rdev) = Lacks comma path × IsShort mode × IsShort rdev
IsPlainRequest (ask_write path buf size offset) =
    Lacks comma path × IsShort size × IsShort offset × (buf ≢ []) × Lacks comma buf
IsPlainRequest (ask_rename path to) = Lacks comma path × Lacks comma to

-- The namenode sends "command,host,command,text" on.
abbrev pub forwarded : Bytes → Bytes → Bytes → Bytes
forwarded cmd host text = cmd ++ (comma ∷ (host ++ (comma ∷ (cmd ++ (comma ∷ text)))))

-- Every byte differs from `b`, as a test.
abbrev pub all_differ : ℕ → Bytes → Bool
all_differ b [] = true
all_differ b (c ∷ s) = if c == b then false else all_differ b s

pub all_differ-Lacks : (b : ℕ) (s : Bytes) → all_differ b s ≡ true → Lacks b s
all_differ-Lacks b [] h = tt
all_differ-Lacks b (c ∷ s) h = elim (Bool-cases (c == b)) [
  | inl e ↦ absurd (ground arith)
  | inr e ↦ ((λ eq. absurd (ground arith)), all_differ-Lacks b s (rw e at h))
]

pub literal-IsField :
    (s : Bytes) → all_differ comma s ≡ true → all_differ 0 s ≡ true → s ≢ [] → IsField s
literal-IsField s no_comma no_nul filled = record {
  no_comma = all_differ-Lacks comma s no_comma;
  no_nul = all_differ-Lacks 0 s no_nul;
  not_empty = filled;
}

pub my_path-Lacks : (path : Bytes) → Lacks comma path → Lacks comma (my_path path)
my_path-Lacks path h =
    All-append (λ c. c ≢ comma) tmp_path path (all_differ-Lacks comma tmp_path refl) h
