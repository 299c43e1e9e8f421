-- ===== src/Text/Token.antt =====
-- What strtok finds in a text that was built from fields and commas.
use dsproj.Common.{ℕ, ◌≡◌, ◌≢◌, refl, none, some, [], ◌∷◌, ◌++◌, arith, ==_false}
use dsproj.Text.{Bytes, Lacks, cut, strtok}

cut-sep : (sep : ℕ) (tok rest : Bytes) → Lacks sep tok → cut sep (tok ++ (sep ∷ rest)) ≡ (tok, rest)
cut-sep sep [] rest h = ground arith
cut-sep sep (c ∷ tok) rest (hc, h) = ground (arith, cut-sep sep tok rest h)

cut-last : (sep : ℕ) (tok : Bytes) → Lacks sep tok → cut sep tok ≡ (tok, [])
cut-last sep [] h = refl
cut-last sep (c ∷ tok) (hc, h) = ground (arith, cut-last sep tok h)

-- A field with no separator in it is read back, and the rest is left for the next call.
pub strtok-field :
    (sep : ℕ) (tok rest : Bytes)
    → tok ≢ []
    → Lacks sep tok
    → strtok sep (tok ++ (sep ∷ rest)) ≡ some (tok, rest)
unfolding strtok
strtok-field sep [] rest ne h = absurd (ne refl)
strtok-field sep (c ∷ tok) rest ne h =
    ground (arith, ==_false c sep h.0, cut-sep sep (c ∷ tok) rest h)

pub strtok-last :
    (sep : ℕ) (tok : Bytes) → tok ≢ [] → Lacks sep tok → strtok sep tok ≡ some (tok, [])
unfolding strtok
strtok-last sep [] ne h = absurd (ne refl)
strtok-last sep (c ∷ tok) ne h = ground (arith, ==_false c sep h.0, cut-last sep (c ∷ tok) h)

-- Behind the last token strtok returns NULL.
pub strtok-nil : (sep : ℕ) → strtok sep [] ≡ none
unfolding strtok
strtok-nil sep = refl
