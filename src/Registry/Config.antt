-- ===== src/Registry/Config.antt =====
-- The file of the datanodes: readdnconfig and initdatanodelist of list.c.
use dsproj.Common.{
  ℕ, ◌-◌, ℤ, pos, minus_one, eq_ℤ, Bool, true, false, ◌&&◌, ◌||◌, leb, ◌==◌, if◌then◌else◌, Option,
  none, some, List, [], ◌∷◌, ◌++◌, length, ◌>>=◌, ◌>>◌, defined_if,
}
use dsproj.Text.{Bytes, codes, comma, strtok, atoi, within}
use dsproj.Posix.{Posix}
use dsproj.Registry.{Lists, datanode_insert}

-- The lines that `fgets(line, sizeof(line), fp)` gives for char line[4096], with their newlines; `left`
-- is the room in the line.
abbrev pub onto_line : ℕ → List Bytes → List Bytes
onto_line c [] = (c ∷ []) ∷ []
onto_line c (l ∷ ls) = (c ∷ l) ∷ ls

unfoldable pub fgets_lines : ℕ → Bytes → List Bytes
fgets_lines left [] = []
fgets_lines left (c ∷ s) =
    let ends = c == b'\n' || left == 1 in
    let rest = fgets_lines (if ends then 4095 else left - 1) s in
    if ends then (c ∷ []) ∷ rest else onto_line c rest

-- strtok with several separators.
abbrev pub is_sep : Bytes → ℕ → Bool
is_sep [] c = false
is_sep (b ∷ bs) c = c == b || is_sep bs c

abbrev pub skip_seps : Bytes → Bytes → Bytes
skip_seps seps [] = []
skip_seps seps (c ∷ s) = if is_sep seps c then skip_seps seps s else c ∷ s

abbrev pub cut_seps : Bytes → Bytes → Bytes × Bytes
cut_seps seps [] = ([], [])
cut_seps seps (c ∷ s) =
    let (tok, rest) = cut_seps seps s in if is_sep seps c then ([], s) else (c ∷ tok, rest)

abbrev pub token_of : Bytes → Bytes → Option (Bytes × Bytes)
token_of seps [] = none
token_of seps (c ∷ s) = some (cut_seps seps (c ∷ s))

unfoldable pub strtok_in : Bytes → Bytes → Option (Bytes × Bytes)
strtok_in seps s = token_of seps (skip_seps seps s)

-- One line: the name and the address go to char[20] each.
unfoldable pub read_line : Bytes → Option (Bytes × Bytes × ℤ)
read_line line = do
  (ptr, s) ← strtok comma line
  node ← within 20 ptr
  (ptr, s) ← strtok comma s
  ip ← within 20 ptr
  (ptr, _) ← strtok_in (comma ∷ b'\n' ∷ []) s
  some (node, ip, atoi ptr)

unfoldable pub load_lines : List Bytes → Lists → Option Lists
load_lines [] st = some st
load_lines (line ∷ lines) st = do
  (node, ip, alive) ← read_line line
  st1 ← datanode_insert node ip alive st
  load_lines lines st1

-- Every insertion writes the file anew while it is being read. So the text must be in the buffer of the
-- stream when the first line is read; a longer one, above `block`, is outside of the model (`none`).
unfoldable pub readdnconfig : ℕ → Bytes → Lists → Option Lists
unfolding load_lines fgets_lines
readdnconfig block text st = do
  defined_if (leb (length text) block)
  load_lines (fgets_lines 4095 text) st

-- How initdatanodelist ends: by exit, or with the lists.
pub data Start : Type 0 where
  exited : Start
  started : Lists → Start

abbrev pub no_lists : Bytes → Lists
no_lists config = record { datanodes = []; dlist = none; files = []; config = config }

module _ {S : Type 0} (os : Posix S) where
  -- `mkdir(…, 0700)` failed, and not with EEXIST.
  abbrev pub mkdir_fails : Bytes → S → Bool × S
  mkdir_fails path s =
      let (c, s1) = os.mkdir path (pos 448) s in
      (eq_ℤ c.res minus_one && (if eq_ℤ c.errno (pos 17) then false else true), s1)

  -- `user` is the value of USER, `text` what the file holds if it is there. (The output is not modelled:
  -- one printf lacks its argument.)
  unfoldable pub initdatanodelist : Option Bytes → ℕ → Bytes → S → Option (Start × S)
  unfolding readdnconfig
  initdatanodelist none block text s = some (exited, s)
  initdatanodelist (some user) block text s =
      let buf = codes "/tmp/.cs545/" in
      let (failed_first, s1) = mkdir_fails buf s in
      let loaded : Bytes → S → Option (Start × S) = λ file s2.
        (let (c, st, s3) = os.stat file s2 in
          (if eq_ℤ c.res (pos 0)
            then readdnconfig block text (no_lists text)
            else some (no_lists []))
          >>= λ lists. some (started lists, s3)) in
      let second : Option (Start × S) = do
        folder ← within 100 (buf ++ user)
        let (failed_second, s2) = mkdir_fails folder s1
        let opened : Option (Start × S) =
            (within 120 (folder ++ codes "/dnconfig") >>= λ file. loaded file s2)
        if failed_second then some (exited, s2) else opened
      in if failed_first then some (exited, s1) else second
