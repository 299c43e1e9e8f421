-- ===== src/Registry/Lines.antt =====
-- A line of the datanodes' file, as datanode_filewrite writes it and readdnconfig of list.c reads it.
use dsproj.Common.{
  All-map, All-append, ℕ, ◌-◌, ◌<◌, ◌≡◌, ◌≢◌, refl, sym, ap, arith, ℤ, true, false, some, [], ◌∷◌,
  ◌++◌, length, length-append, append_assoc, ==_false, All,
}
use dsproj.Text.{Bytes, comma, Lacks, snprintf10}
use dsproj.Text.Number.{
  IsField, IsShort, snprintf10-IsField, snprintf10-IsPrint, IsPrint, atoi-snprintf10,
  length-snprintf10,
}
use dsproj.RoundTrip.Buffer.{strtok-IsField, within-fits}
use dsproj.Registry.{Datanode}
use dsproj.Registry.Config.{fgets_lines, is_sep, strtok_in, cut_seps, read_line}

-- A line ends at its newline, if it fits.
pub fgets_lines-line :
    (left : ℕ) (l rest : Bytes)
    → Lacks b'\n' l
    → length l < left
    → fgets_lines left (l ++ (b'\n' ∷ rest)) ≡ (l ++ b'\n' ∷ []) ∷ fgets_lines 4095 rest
unfolding fgets_lines
fgets_lines-line left [] rest h k = refl
fgets_lines-line left (c ∷ l) rest (hc, h) k = rw (
  ==_false c b'\n' hc,
  ==_false left 1 (omega arith),
  fgets_lines-line (left - 1) l rest h (omega arith),
)

cut_seps-field :
    (seps : Bytes) (sep : ℕ) (tok rest : Bytes)
    → is_sep seps sep ≡ true
    → All (λ c. is_sep seps c ≡ false) tok
    → cut_seps seps (tok ++ (sep ∷ rest)) ≡ (tok, rest)
cut_seps-field seps sep [] rest e h = rw e
cut_seps-field seps sep (c ∷ tok) rest e (hc, h) = rw (hc, cut_seps-field seps sep tok rest e h)

strtok_in-field :
    (seps : Bytes) (sep : ℕ) (tok rest : Bytes)
    → is_sep seps sep ≡ true
    → tok ≢ []
    → All (λ c. is_sep seps c ≡ false) tok
    → strtok_in seps (tok ++ (sep ∷ rest)) ≡ some (tok, rest)
unfolding strtok_in
strtok_in-field seps sep [] rest e ne h = absurd (ne refl)
strtok_in-field seps sep (c ∷ tok) rest e ne (hc, h) =
    rw hc (ap some (cut_seps-field seps sep (c ∷ tok) rest e (hc, h)))

-- A datanode whose line is read back: fields without newlines that fit char[20], and a short number.
pub record IsLine (dn : Datanode) : Type 0 where
  pub node_field : IsField dn.node
  pub ip_field : IsField dn.ip
  pub node_line : Lacks b'\n' dn.node
  pub ip_line : Lacks b'\n' dn.ip
  pub node_fits : length dn.node < 20
  pub ip_fits : length dn.ip < 20
  pub alive_short : IsShort dn.alive

pub line_text : Datanode → Bytes
line_text dn = dn.node ++ (comma ∷ (dn.ip ++ (comma ∷ snprintf10 dn.alive)))

pub config_text-line :
    (dn : Datanode) (rest : Bytes)
    → (dn.node ++ (comma ∷ (dn.ip ++ (comma ∷ (snprintf10 dn.alive ++ (b'\n' ∷ rest))))))
      ≡ line_text dn ++ (b'\n' ∷ rest)
unfolding line_text
config_text-line dn rest = rw (
  append_assoc dn.node (comma ∷ (dn.ip ++ (comma ∷ snprintf10 dn.alive))) (b'\n' ∷ rest),
  append_assoc dn.ip (comma ∷ snprintf10 dn.alive) (b'\n' ∷ rest),
)

number-Lacks : (v : ℤ) → All (λ c. is_sep (comma ∷ b'\n' ∷ []) c ≡ false) (snprintf10 v)
number-Lacks v =
    All-map _ _
      (λ c (h : IsPrint c). rw (==_false c comma (omega arith), ==_false c b'\n' (omega arith)))
      (snprintf10 v) (snprintf10-IsPrint v)

pub line_text-Lacks : (dn : Datanode) → IsLine dn → Lacks b'\n' (line_text dn)
unfolding line_text
line_text-Lacks dn h =
    let number =
      All-map _ _ (λ c (h : IsPrint c). let ne : c ≢ b'\n' = omega arith in ne)
        (snprintf10 dn.alive) (snprintf10-IsPrint dn.alive) in
    All-append (λ c. c ≢ b'\n') dn.node _ h.node_line
      (omega arith, All-append (λ c. c ≢ b'\n') dn.ip _ h.ip_line (omega arith, number))

pub length-line_text : (dn : Datanode) → IsLine dn → length (line_text dn) < 51
unfolding line_text
length-line_text dn h = omega (
  arith,
  length-append dn.node (comma ∷ (dn.ip ++ (comma ∷ snprintf10 dn.alive))),
  length-append dn.ip (comma ∷ snprintf10 dn.alive),
  length-snprintf10 dn.alive,
  h.node_fits,
  h.ip_fits,
)

pub read_line-text :
    (dn : Datanode)
    → IsLine dn
    → read_line (line_text dn ++ b'\n' ∷ []) ≡ some (dn.node, dn.ip, dn.alive)
unfolding read_line
read_line-text dn h = rw (sym (config_text-line dn [])) (
    rw (
      strtok-IsField dn.node (dn.ip ++ (comma ∷ (snprintf10 dn.alive ++ b'\n' ∷ []))) h.node_field,
      within-fits 20 dn.node h.node_fits,
      strtok-IsField dn.ip (snprintf10 dn.alive ++ b'\n' ∷ []) h.ip_field,
      within-fits 20 dn.ip h.ip_fits,
      strtok_in-field (comma ∷ b'\n' ∷ []) b'\n' (snprintf10 dn.alive) [] refl
          (snprintf10-IsField dn.alive).not_empty (number-Lacks dn.alive),
      atoi-snprintf10 dn.alive h.alive_short,
    ))
