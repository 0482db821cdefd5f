-- ===== src/DocGen.antt =====
-- cmd/doc-gen/main.go: the generator of docs/crd.md and of docs/plugins. `fmtRawDoc` makes a comment the text of a cell.
pub mod Types
pub mod Pages
pub mod Cells
pub mod Reader
use Prim.Native.Char.{Char, code}
use Prim.Native.String
use Prim.Native.String.{String, ◌++◌}
use fluentbit_operator.Prelude.{
  Bool, true, false, ◌&&◌, ◌==◌, List, [], ◌∷◌, eqb, split, trim_left, trim_right, if◌then◌else◌,
}

-- `strings.HasPrefix`
unfoldable pub has_prefix : String → String → Bool
has_prefix s String.[] = true
has_prefix String.[] (String.◌∷◌ d t) = false
has_prefix (String.◌∷◌ c s) (String.◌∷◌ d t) = eqb (code c) (code d) && has_prefix s t

-- `strings.Contains`
unfoldable pub contains : String → String → Bool
unfolding has_prefix
contains String.[] t = t == ""
contains (String.◌∷◌ c s) t = if has_prefix (String.◌∷◌ c s) t then true else contains s t

-- `strings.Replace(s, old, new, -1)`, where `old` is one character, and where it is two
unfoldable pub replace : Char → String → String → String
replace d t String.[] = ""
replace d t (String.◌∷◌ c s) =
    let rest = replace d t s in if eqb (code c) (code d) then t ++ rest else String.◌∷◌ c rest

unfoldable pub replace_pair : Char → Char → String → String → String
replace_pair a b t String.[] = ""
replace_pair a b t (String.◌∷◌ c String.[]) = String.◌∷◌ c ""
replace_pair a b t (String.◌∷◌ c (String.◌∷◌ d s)) =
    elim (eqb (code c) (code a) && eqb (code d) (code b)) [
      | true ↦ t ++ replace_pair a b t s
      | false ↦ String.◌∷◌ c (replace_pair a b t (String.◌∷◌ d s))
    ]

-- `delPrevChar`: what the buffer ends with is a space or the end of a line.
unfoldable pub del_prev_char : String → String
del_prev_char String.[] = ""
del_prev_char (String.◌∷◌ c s) =
    let rest = del_prev_char s in if s == "" then "" else String.◌∷◌ c rest

-- The loop of `fmtRawDoc`, with the buffer
unfoldable pub write_lines : List String → String → String
unfolding has_prefix del_prev_char trim_left trim_right
write_lines [] buffer = buffer
write_lines (raw ∷ lines) buffer =
    let line = trim_right " " raw in
    write_lines lines (
      if line == ""
      then del_prev_char buffer ++ "\n\n"
      else if has_prefix (trim_left " " line) "+"
      then buffer
      else buffer ++ (line ++ " "))

-- From `postDoc` on
unfoldable pub escape : String → String
unfolding replace replace_pair trim_right
escape text =
    let unquoted = replace_pair "\\" "\"" "\"" (trim_right "\n" text) in
    let quoted = replace "\"" "\\\"" unquoted in
    replace "|" "\\|" (replace "\t" "\\t" (replace "\n" "\\n" quoted))

-- `fmtRawDoc`
unfoldable pub fmt_raw_doc : String → String
unfolding split write_lines escape
fmt_raw_doc raw_doc = escape (write_lines (split "\n" raw_doc) "")
