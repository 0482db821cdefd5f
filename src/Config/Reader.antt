-- ===== src/Config/Reader.antt =====
-- A reader of the format that the rendered configuration is written in, as lines of code points: a line
-- that begins with `[` opens a section, any other line that is not empty is an entry, whose key ends at
-- the first space; spaces in front of key and value do not count.
pub mod RoundTrip
pub mod Main
pub mod Parser
use Prim.Native.Char.{code}
use Prim.Native.String
use mathlib.Core.List.{◌++◌, append_assoc}
use fluentbit_operator.Prelude.{
  ◌≡◌, refl, sym, ap, ◌∙◌, ℕ, String, Bool, true, false, not, ◌&&◌, List, [], ◌∷◌, map, codes,
  codes-append, eqb, if◌then◌else◌, arith, Bool-cases, inl, inr, All,
}
use fluentbit_operator.Params.{line}
use fluentbit_operator.Params.Sane.{is_plain, all_plain, IsWord}
use fluentbit_operator.Params.Render.{Entry, print_entries}
use fluentbit_operator.Config.Sections.{Section, headline, print_section, print}

abbrev pub Codes : Type 0
Codes = List ℕ

-- A section as it is read.
pub record ReadSection : Type 0 where
  pub header : Codes
  pub entries : List (Codes × Codes)

unfoldable pub put_first : ℕ → List Codes → List Codes
put_first c [] = (c ∷ []) ∷ []
put_first c (l ∷ ls) = (c ∷ l) ∷ ls

unfoldable pub lines : Codes → List Codes
lines [] = [] ∷ []
lines (c ∷ cs) = let rest = lines cs in if eqb c b'\n' then [] ∷ rest else put_first c rest

unfoldable pub skip_spaces : Codes → Codes
skip_spaces [] = []
skip_spaces (c ∷ cs) = if eqb c b' ' then skip_spaces cs else c ∷ cs

unfoldable pub take_until : ℕ → Codes → Codes
take_until stop [] = []
take_until stop (c ∷ cs) = if eqb c stop then [] else c ∷ take_until stop cs

unfoldable pub drop_until : ℕ → Codes → Codes
drop_until stop [] = []
drop_until stop (c ∷ cs) = if eqb c stop then c ∷ cs else drop_until stop cs

unfoldable pub read_entry : Codes → Codes × Codes
read_entry l = let s = skip_spaces l in (take_until b' ' s, skip_spaces (drop_until b' ' s))

-- The entries before the first section of what is left, and the sections.
unfoldable pub read_line :
    Codes → List (Codes × Codes) × List ReadSection → List (Codes × Codes) × List ReadSection
read_line [] (es, ss) = (es, ss)
read_line (c ∷ cs) (es, ss) =
    if eqb c b'['
    then ([], (record { header = take_until b']' cs; entries = es }) ∷ ss)
    else (read_entry (c ∷ cs) ∷ es, ss)

unfoldable pub read_lines : List Codes → List (Codes × Codes) × List ReadSection
read_lines [] = ([], [])
read_lines (l ∷ ls) = read_line l (read_lines ls)

unfoldable pub read : Codes → List ReadSection
unfolding put_first lines skip_spaces take_until drop_until read_entry read_line read_lines
read cs = (read_lines (lines cs)).1

-- What a section reads as.
unfoldable pub read_as : Section → ReadSection
unfolding skip_spaces
read_as s = record {
  header = codes s.header;
  entries = map (λ e. (codes e.0, skip_spaces (codes e.1))) s.entries;
}

-- No code point ends the line.
abbrev pub one_line : String → Bool
one_line String.[] = true
one_line (String.◌∷◌ c s) = not (eqb (code c) b'\n') && one_line s

-- A header that stands between brackets on a line.
abbrev pub is_header : String → Bool
is_header String.[] = true
is_header (String.◌∷◌ c s) = not (eqb (code c) b'\n') && not (eqb (code c) b']') && is_header s

-- A section that can be read back: keys are words, values and header stand on one line.
abbrev pub IsReadable : Section → Type 0
IsReadable s =
    (is_header s.header ≡ true) × All (λ (e : Entry). IsWord e.0 × (one_line e.1 ≡ true)) s.entries
