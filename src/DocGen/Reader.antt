-- ===== src/DocGen/Reader.antt =====
-- A reader of the tables of a page of Markdown, independent of how pages are written: a line that begins with a bar is a
-- row, and its cells end at the bars that no backslash is in front of.
pub mod Rows
pub mod Crds
use fluentbit_operator.Prelude.{ℕ, Bool, true, false, not, ◌&&◌, List, [], ◌∷◌, eqb, if◌then◌else◌}
use fluentbit_operator.Config.Reader.{Codes, put_first, lines}

unfoldable pub cells : Bool → Codes → List Codes
unfolding put_first
cells escaped [] = [] ∷ []
cells escaped (c ∷ cs) =
    let rest = cells (eqb c b'\\') cs in
    if eqb c b'|' && not escaped then [] ∷ rest else put_first c rest

unfoldable pub is_row : Codes → Bool
is_row [] = false
is_row (c ∷ cs) = eqb c b'|'

unfoldable pub rows : List Codes → List (List Codes)
unfolding cells is_row
rows [] = []
rows (l ∷ ls) = let rest = rows ls in if is_row l then cells false l ∷ rest else rest

-- The rows of the tables of a page
unfoldable pub read_tables : Codes → List (List Codes)
unfolding rows lines
read_tables cs = rows (lines cs)
