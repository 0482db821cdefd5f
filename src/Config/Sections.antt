-- ===== src/Config/Sections.antt =====
-- The configuration as data, against which the text that the program writes is judged: a list of
-- sections, each a header and the entries below it.
pub mod Load
pub mod Input
pub mod Filter
pub mod Output
pub mod Parser
pub mod Main
use Prim.Native.String.{◌++◌}
use fluentbit_operator.Prelude.{String, ◌==◌, List, [], ◌∷◌, Option, none, some, if◌then◌else◌}
use fluentbit_operator.Result.{Result, ok, ◌>>=◌}
use fluentbit_operator.Params.Render.{Entry, print_entries}

pub record Section : Type 0 where
  pub header : String
  pub entries : List Entry

-- The line that opens a section.
unfoldable pub headline : String → String
headline h = "[" ++ h ++ "]\n"

unfoldable pub print_section : Section → String
unfolding print_entries
print_section s = headline s.header ++ print_entries s.entries

unfoldable pub print : List Section → String
unfolding print_section
print [] = ""
print (s ∷ ss) = print_section s ++ print ss

-- An option of the item itself, which is left out where it is empty.
unfoldable pub optional : String → String → List Entry
optional key x = if x == "" then [] else (key, x) ∷ []

module _ {P : Type 0} (section : P → Result Section) where
  -- The sections of the plugins that are there, in order, or the first error.
  unfoldable pub field_sections : List (Option P) → Result (List Section)
  field_sections [] = ok []
  field_sections (none ∷ ps) = field_sections ps
  field_sections (some p ∷ ps) = do s ← section p; ss ← field_sections ps; ok (s ∷ ss)
