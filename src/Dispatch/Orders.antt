-- ===== src/Dispatch/Orders.antt =====
-- What a datanode makes of the requests of client.c: receivecommand_datanode on the forwarded text.
use dsproj.Common.{
  ℤ, pos, true, ◌>>=◌, some, [], ◌∷◌, ◌++◌, ◌≡◌, ◌≢◌, ◌<◌, length, All-append, arith, refl,
  append_assoc, sym, ◌∙◌, ap,
}
use dsproj.Text.{Bytes, codes, comma, Lacks, strtok, snprintf10}
use dsproj.Text.Number.{IsShort, IsField, snprintf10-IsField, atoi-snprintf10}
use dsproj.Text.Token.{strtok-field, strtok-last, strtok-nil}
use dsproj.RoundTrip.Buffer.{number-last, received-text, strtok-IsField, within-fits}
use dsproj.Client.{my_path}
use dsproj.Client.Status.{truncate_request}
use dsproj.Posix.{Posix}
use dsproj.Registry.{Lists}
use dsproj.Dispatch.{
  Order, serve, receivecommand_datanode, read_message, read_order, number_or_zero, token_or_null,
}
use dsproj.Dispatch.Answered.{answered, serve-meant}
use dsproj.Dispatch.Request.{
  Request, request_command, request_text, meant, IsPlainRequest, forwarded, literal-IsField,
  my_path-Lacks,
}

-- The path of a request is its first token.
pub path_last :
    (path : Bytes) → Lacks comma path → strtok comma (my_path path) ≡ some (my_path path, [])
path_last path h = strtok-last comma (my_path path) (λ e. cc) (my_path-Lacks path h)

pub path_field :
    (path rest : Bytes)
    → Lacks comma path
    → strtok comma (my_path path ++ (comma ∷ rest)) ≡ some (my_path path, rest)
path_field path rest h = strtok-field comma (my_path path) rest (λ e. cc) (my_path-Lacks path h)

zero_field :
    (v : ℤ) (rest : Bytes) → IsShort v → number_or_zero (snprintf10 v ++ (comma ∷ rest)) ≡ (v, rest)
zero_field v rest h =
    rw (
      number_or_zero,
      strtok-IsField (snprintf10 v) rest (snprintf10-IsField v),
      atoi-snprintf10 v h,
    )

zero_last : (v : ℤ) → IsShort v → number_or_zero (snprintf10 v) ≡ (v, [])
zero_last v h =
    let f = snprintf10-IsField v in
    rw
      (number_or_zero, strtok-last comma (snprintf10 v) f.not_empty f.no_comma, atoi-snprintf10 v h)

-- The datanode reads a request as the call that the client's operation means.
read_order-meant :
    (q : Request)
    → IsPlainRequest q
    → read_order (request_command q) (request_text q) ≡ some (meant q)
unfolding read_order
read_order-meant (Request.ask_getattr path) h = rw (path_last path h)
read_order-meant (Request.ask_readdir path) h = rw (path_last path h)
read_order-meant (Request.ask_unlink path) h = rw (path_last path h)
read_order-meant (Request.ask_rmdir path) h = rw (path_last path h)
read_order-meant (Request.ask_access path mask) (h, short) =
    rw (path_field path (snprintf10 mask) h) (rw (number-last mask short))
read_order-meant (Request.ask_open path flags) (h, short) =
    rw (path_field path (snprintf10 flags) h) (rw (number-last flags short))
read_order-meant (Request.ask_mkdir path mode) (h, short) =
    rw (path_field path (snprintf10 mode) h) (rw (number-last mode short))
read_order-meant (Request.ask_chmod path mode) (h, short) =
    rw (path_field path (snprintf10 mode) h) (rw (number-last mode short))
read_order-meant (Request.ask_read path size offset) (h, size_short, short) =
    rw (path_field path (snprintf10 size ++ (comma ∷ snprintf10 offset)) h)
      (rw (zero_field size (snprintf10 offset) size_short, zero_last offset short))
read_order-meant (Request.ask_mknod path mode rdev) (h, mode_short, short) =
    rw (path_field path (snprintf10 mode ++ (comma ∷ (snprintf10 rdev ++ (comma ∷ [])))) h)
      (rw (zero_field mode (snprintf10 rdev ++ (comma ∷ [])) mode_short, zero_field rdev [] short))
read_order-meant (Request.ask_write path buf size offset) (h, size_short, short, filled, lacks) =
    rw (path_field path (snprintf10 size ++ (comma ∷ (snprintf10 offset ++ (comma ∷ buf)))) h) (
      rw (
        zero_field size (snprintf10 offset ++ (comma ∷ buf)) size_short,
        zero_field offset buf short,
        token_or_null,
        strtok-last comma buf filled lacks,
      ))
read_order-meant (Request.ask_rename path to) (h, k) =
    rw (path_field path (my_path to) h) (rw (token_or_null, path_last to k))

read_order_truncate :
    (path : Bytes) (size : ℤ)
    → Lacks comma path
    → read_order (codes "truncate") (truncate_request path size)
      ≡ some (Order.truncate (my_path path ++ snprintf10 size) (pos 0))
unfolding read_order
read_order_truncate path size h =
    let name = my_path path ++ snprintf10 size in
    let lacks =
      All-append (λ c. c ≢ comma) (my_path path) (snprintf10 size) (my_path-Lacks path h)
        (snprintf10-IsField size).no_comma in
    let first : strtok comma (truncate_request path size) ≡ some (name, []) =
      ap (strtok comma) (sym (append_assoc (my_path path) (snprintf10 size) (comma ∷ [])))
      ∙ strtok-field comma name [] (λ e. cc) lacks in
    rw first (rw (number_or_zero, strtok-nil comma))

-- The parts before the text of a request.
read_message-forwarded :
    (cmd host text : Bytes) (order : Order)
    → IsField cmd
    → IsField host
    → length host < 100
    → Lacks 0 text
    → length (forwarded cmd host text) < 1000
    → read_order cmd text ≡ some order
    → read_message (forwarded cmd host text) ≡ some (host, order)
unfolding read_message
read_message-forwarded cmd host text order c h host_fits no_nul fits meaning =
    let clean : Lacks 0 (forwarded cmd host text) =
      All-append (λ b. b ≢ 0) cmd _ c.no_nul
        (
          omega arith,
          All-append (λ b. b ≢ 0) host _ h.no_nul
              (omega arith, All-append (λ b. b ≢ 0) cmd _ c.no_nul (omega arith, no_nul)),
        ) in
    rw (received-text 1000 (forwarded cmd host text) clean fits) (
      rw (strtok-IsField cmd (host ++ (comma ∷ (cmd ++ (comma ∷ text)))) c) (
        rw (
          strtok-IsField host (cmd ++ (comma ∷ text)) h,
          within-fits 100 host host_fits,
          strtok-IsField cmd text c,
          meaning,
        )))

pub request_command-IsField : (q : Request) → IsField (request_command q)
request_command-IsField (Request.ask_getattr path) =
    literal-IsField (codes "getattr") refl refl (λ e. cc)
request_command-IsField (Request.ask_readdir path) =
    literal-IsField (codes "readdir") refl refl (λ e. cc)
request_command-IsField (Request.ask_unlink path) =
    literal-IsField (codes "unlink") refl refl (λ e. cc)
request_command-IsField (Request.ask_rmdir path) =
    literal-IsField (codes "rmdir") refl refl (λ e. cc)
request_command-IsField (Request.ask_access path mask) =
    literal-IsField (codes "access") refl refl (λ e. cc)
request_command-IsField (Request.ask_open path flags) =
    literal-IsField (codes "open") refl refl (λ e. cc)
request_command-IsField (Request.ask_mkdir path mode) =
    literal-IsField (codes "mkdir") refl refl (λ e. cc)
request_command-IsField (Request.ask_chmod path mode) =
    literal-IsField (codes "chmod") refl refl (λ e. cc)
request_command-IsField (Request.ask_read path size offset) =
    literal-IsField (codes "read") refl refl (λ e. cc)
request_command-IsField (Request.ask_mknod path mode rdev) =
    literal-IsField (codes "mknod") refl refl (λ e. cc)
request_command-IsField (Request.ask_write path buf size offset) =
    literal-IsField (codes "write") refl refl (λ e. cc)
request_command-IsField (Request.ask_rename path to) =
    literal-IsField (codes "rename") refl refl (λ e. cc)

module _ {S : Type 0} (os : Posix S) (datanode_namenode host : Bytes) (lists : Lists) (s : S)
    (named : IsField host) (host_fits : length host < 100) where
  pub receivecommand_datanode-serve :
      (q : Request)
      → IsPlainRequest q
      → Lacks 0 (request_text q)
      → length (forwarded (request_command q) host (request_text q)) < 1000
      → receivecommand_datanode os datanode_namenode
          (forwarded (request_command q) host (request_text q))
          lists
          s
        ≡ serve os datanode_namenode host (meant q) lists s
  unfolding receivecommand_datanode
  receivecommand_datanode-serve q plain no_nul fits = rw (
      read_message-forwarded (request_command q) host (request_text q) (meant q)
        (request_command-IsField q) named host_fits no_nul fits (read_order-meant q plain))

  -- A request of a client that reaches a datanode by the namenode is answered there by the operating
  -- system's calls for the client's operation and the text of their results (`answered`), with the
  -- client's path under the folder, its numbers in their order and its data: for getattr, readdir,
  -- unlink, rmdir, access, open, mkdir, chmod, read, mknod, write and rename. The loop goes on with
  -- the lists as they were. The paths and the data have no comma, the data are not empty, the numbers
  -- are short and the message fits its buffer.
  pub receivecommand_datanode-meant :
      (q : Request)
      → IsPlainRequest q
      → Lacks 0 (request_text q)
      → length (forwarded (request_command q) host (request_text q)) < 1000
      → receivecommand_datanode os datanode_namenode
          (forwarded (request_command q) host (request_text q))
          lists
          s
        ≡ (answered os host q s >>= λ t.
            some (record { running = true; reply = some t.0; lists = lists }, t.1))
  receivecommand_datanode-meant q plain no_nul fits =
      receivecommand_datanode-serve q plain no_nul fits
      ∙ serve-meant os datanode_namenode host q lists s

  -- A truncate is served on another path: the digits of the size stand at its end, and the size is 0.
  pub receivecommand_datanode_truncate :
      (path : Bytes) (size : ℤ)
      → Lacks comma path
      → Lacks 0 (truncate_request path size)
      → length (forwarded (codes "truncate") host (truncate_request path size)) < 1000
      → receivecommand_datanode os datanode_namenode
          (forwarded (codes "truncate") host (truncate_request path size))
          lists
          s
        ≡ serve os datanode_namenode host
            (Order.truncate (my_path path ++ snprintf10 size) (pos 0))
            lists
            s
  unfolding receivecommand_datanode
  receivecommand_datanode_truncate path size plain no_nul fits = rw (
      read_message-forwarded (codes "truncate") host (truncate_request path size)
        (Order.truncate (my_path path ++ snprintf10 size) (pos 0))
        (literal-IsField (codes "truncate") refl refl (λ e. cc)) named host_fits no_nul fits
        (read_order_truncate path size plain))
