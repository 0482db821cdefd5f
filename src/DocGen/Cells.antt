-- ===== src/DocGen/Cells.antt =====
-- Texts that can stand in a cell of a table: they stay on a line, and a bar comes only behind a backslash.
use Prim.Native.Char.{Char, code}
use Prim.Native.Nat.{ℕ, ◌<◌}
use native.Mathlib.Decide.{dec_lt}
use Prim.Native.String.{String, ◌++◌}
use text.Mathlib.TextLemmas.{nil-append, cons-append}
use fluentbit_operator.Prelude.{
  ◌≡◌, refl, Bool, true, false, not, ◌&&◌, ◌||◌, eqb, arith, ltb, leb, lower_at, to_lower, split,
  trim_right,
}
use fluentbit_operator.Config.Reader.{one_line}
use fluentbit_operator.Config.Reader.RoundTrip.{one_line-append}
use fluentbit_operator.DocGen.{replace, replace_pair, write_lines, escape, fmt_raw_doc}

-- `escaped` says that a backslash is in front.
abbrev pub is_cell : Bool → String → Bool
is_cell escaped String.[] = true
is_cell escaped (String.◌∷◌ c s) =
    not (eqb (code c) b'\n')
    && (not (eqb (code c) b'|') || escaped)
    && is_cell (eqb (code c) b'\\') s

-- Neither the end of a line nor a bar nor a backslash
abbrev pub is_tame : String → Bool
is_tame String.[] = true
is_tame (String.◌∷◌ c s) =
    not (eqb (code c) b'\n') && not (eqb (code c) b'|') && not (eqb (code c) b'\\') && is_tame s

pub cell_of_tame : (b : Bool) (s : String) → is_tame s ≡ true → is_cell b s ≡ true
cell_of_tame b String.[] h = refl
cell_of_tame b (String.◌∷◌ c s) h = ground (arith, cell_of_tame (eqb (code c) b'\\') s)

pub one_line_of_cell : (b : Bool) (s : String) → is_cell b s ≡ true → one_line s ≡ true
one_line_of_cell b String.[] h = refl
one_line_of_cell b (String.◌∷◌ c s) h = ground (arith, one_line_of_cell (eqb (code c) b'\\') s)

pub tame-append : (s t : String) → is_tame s ≡ true → is_tame t ≡ true → is_tame (s ++ t) ≡ true
tame-append String.[] t h k = rw nil-append k
tame-append (String.◌∷◌ c s) t h k = rw cons-append (ground (arith, tame-append s t))

pub tame-replace :
    (d : Char) (t s : String) → is_tame t ≡ true → is_tame s ≡ true → is_tame (replace d t s) ≡ true
unfolding replace
tame-replace d t String.[] h k = refl
tame-replace d t (String.◌∷◌ c s) h k =
    ground (arith, tame-replace d t s, tame-append t (replace d t s))

pub one_line-replace :
    (d : Char) (t s : String)
    → one_line t ≡ true
    → one_line s ≡ true
    → one_line (replace d t s) ≡ true
unfolding replace
one_line-replace d t String.[] h k = refl
one_line-replace d t (String.◌∷◌ c s) h k =
    ground (arith, one_line-replace d t s, one_line-append t (replace d t s))

-- Every end of a line is replaced.
no_line_ends : (s : String) → one_line (replace "\n" "\\n" s) ≡ true
unfolding replace
no_line_ends String.[] = refl
no_line_ends (String.◌∷◌ c s) =
    ground (arith, no_line_ends s, one_line-append "\\n" (replace "\n" "\\n" s))

bar_cell : (b : Bool) (t : String) → is_cell b ("\\|" ++ t) ≡ is_cell false t
bar_cell b t = rw (cons-append, cons-append, nil-append) refl

no_bars : (b : Bool) (s : String) → one_line s ≡ true → is_cell b (replace "|" "\\|" s) ≡ true
unfolding replace
no_bars b String.[] h = refl
no_bars b (String.◌∷◌ c s) h =
    ground
      (arith, no_bars false s, no_bars (eqb (code c) b'\\') s, bar_cell b (replace "|" "\\|" s))

-- What stands in front of the last three replacements
abbrev quoted : String → String
quoted doc =
    replace "\"" "\\\""
      (replace_pair "\\" "\"" "\"" (trim_right "\n" (write_lines (split "\n" doc) "")))

-- The text that `fmtRawDoc` makes of a comment can stand in a cell.
pub fmt_raw_doc_cell : (b : Bool) (doc : String) → is_cell b (fmt_raw_doc doc) ≡ true
unfolding fmt_raw_doc escape
fmt_raw_doc_cell b doc =
    no_bars b (replace "\t" "\\t" (replace "\n" "\\n" (quoted doc))) (
      one_line-replace "\t" "\\t" (replace "\n" "\\n" (quoted doc)) refl
        (no_line_ends (quoted doc)))

abbrev is_letter : ℕ → Bool
is_letter n = (leb 65 n && leb n 90) || (leb 97 n && leb n 122)

-- Lowering makes no character that is not a letter, and keeps those.
lower_at-eqb :
    (c : Char) (d : Dec (code c < 91)) (b : Bool) (n : ℕ)
    → ltb 64 (code c) ≡ b
    → is_letter n ≡ false
    → eqb (code (lower_at c d b)) n ≡ eqb (code c) n
unfolding lower_at
lower_at-eqb c (yes h) true n e l = ground arith
lower_at-eqb c (yes h) false n e l = refl
lower_at-eqb c (no h) b n e l = refl

lower-eqb :
    (c : Char) (n : ℕ)
    → is_letter n ≡ false
    → eqb (code (lower_at c (dec_lt (code c) 91) (ltb 64 (code c)))) n ≡ eqb (code c) n
lower-eqb c n l = lower_at-eqb c (dec_lt (code c) 91) (ltb 64 (code c)) n refl l

pub tame-to_lower : (s : String) → is_tame (to_lower s) ≡ is_tame s
unfolding to_lower
tame-to_lower String.[] = refl
tame-to_lower (String.◌∷◌ c s) =
    rw (lower-eqb c b'\n' refl, lower-eqb c b'|' refl, lower-eqb c b'\\' refl, tame-to_lower s) refl

pub one_line-to_lower : (s : String) → one_line (to_lower s) ≡ one_line s
unfolding to_lower
one_line-to_lower String.[] = refl
one_line-to_lower (String.◌∷◌ c s) = rw (lower-eqb c b'\n' refl, one_line-to_lower s) refl
