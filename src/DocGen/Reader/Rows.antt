-- ===== src/DocGen/Reader/Rows.antt =====
-- What the pages read back as.
use Prim.Native.Char.{code}
use Prim.Native.String
use Prim.Native.String.{String}
use mathlib.Core.List
use mathlib.Core.List.{◌++◌}
use text.Mathlib.TextLemmas as Text
use text.Mathlib.TextLemmas.{nil-append, cons-append}
use fluentbit_operator.Prelude.{
  ◌≡◌, refl, sym, ap, ◌∙◌, Bool, true, false, eqb, arith, List, [], ◌∷◌, map, codes, codes-append,
  All, Bool-cases, inl, inr, if◌then◌else◌,
}
use fluentbit_operator.Config.Reader.{Codes, put_first, lines, one_line}
use fluentbit_operator.Config.Reader.RoundTrip.{lines-append, one_line-append}
use fluentbit_operator.DocGen.Types.{Pair, KubeTypes}
use fluentbit_operator.DocGen.Pages.{field_row, field_rows, section_text, has_fields, plugin_page}
use fluentbit_operator.DocGen.Cells.{is_cell, one_line_of_cell}
use fluentbit_operator.DocGen.Reader.{cells, is_row, rows, read_tables}

-- A cell of a text, with a space on either side.
abbrev pub cell : String → Codes
cell s = b' ' ∷ (codes s ++ b' ' ∷ [])

abbrev pub row : String → String → String → List Codes
row a b c = [] ∷ cell a ∷ cell b ∷ cell c ∷ [] ∷ []

-- The rows of a table
abbrev pub table : List Pair → List (List Codes)
table fields =
    row "Field" "Description" "Scheme"
    ∷ row "-----" "-----------" "------"
    ∷ map (λ (f : Pair). row f.name f.doc f.typ) fields

-- A pair all parts of which can stand in a cell.
abbrev pub IsRow : Pair → Type 0
IsRow f =
    (is_cell false f.name ≡ true) × (is_cell false f.doc ≡ true) × (is_cell false f.typ ≡ true)

cells-cell :
    (b : Bool) (s : String) (cs : Codes)
    → is_cell b s ≡ true
    → cells b (codes s ++ b' ' ∷ b'|' ∷ cs) ≡ (codes s ++ b' ' ∷ []) ∷ cells false cs
unfolding cells put_first
cells-cell b String.[] cs h = refl
cells-cell b (String.◌∷◌ c s) cs h = ground (arith, cells-cell (eqb (code c) b'\\') s cs)

-- The line of a row, without its end
abbrev line_of : String → String → String → Codes
line_of a b c =
    b'|'
    ∷ b' '
    ∷ (codes a
        ++ b' ' ∷ b'|' ∷ b' ' ∷ (codes b ++ b' ' ∷ b'|' ∷ b' ' ∷ (codes c ++ b' ' ∷ b'|' ∷ [])))

cells-row :
    (a b c : String)
    → is_cell false a ≡ true
    → is_cell false b ≡ true
    → is_cell false c ≡ true
    → cells false (line_of a b c) ≡ row a b c
unfolding cells put_first
cells-row a b c h i j =
    rw (cells-cell false a _ h, cells-cell false b _ i, cells-cell false c _ j) refl

abbrev body : String → String → String → String
body a b c =
    String.◌++◌ "| "
      (String.◌++◌ a (String.◌++◌ " | " (String.◌++◌ b (String.◌++◌ " | " (String.◌++◌ c " |")))))

codes-body : (a b c : String) → codes (body a b c) ≡ line_of a b c
codes-body a b c = simp (codes-append)

one_line-body :
    (a b c : String)
    → is_cell false a ≡ true
    → is_cell false b ≡ true
    → is_cell false c ≡ true
    → one_line (body a b c) ≡ true
one_line-body a b c h i j =
    let last = String.◌++◌ c " |" in
    let after_b = String.◌++◌ " | " last in
    let from_b = String.◌++◌ b after_b in
    let after_a = String.◌++◌ " | " from_b in
    one_line-append "| " (String.◌++◌ a after_a) refl (
      one_line-append a after_a (one_line_of_cell false a h) (
        one_line-append " | " from_b refl (
          one_line-append b after_b (one_line_of_cell false b i) (
            one_line-append " | " last refl
              (one_line-append c " |" (one_line_of_cell false c j) refl)))))

-- A line that is not a row is passed over, and one that is one is read.
pub rows-text :
    (s : String) (cs : Codes)
    → one_line s ≡ true
    → is_row (codes s) ≡ false
    → rows (lines (codes s ++ b'\n' ∷ cs)) ≡ rows (lines cs)
unfolding rows
rows-text s cs h i = rw (lines-append s cs h, i) refl

rows-row :
    (a b c : String) (cs : Codes)
    → is_cell false a ≡ true
    → is_cell false b ≡ true
    → is_cell false c ≡ true
    → rows (lines (line_of a b c ++ b'\n' ∷ cs)) ≡ row a b c ∷ rows (lines cs)
unfolding rows is_row
rows-row a b c cs h i j =
    ap (λ l. rows (lines (l ++ b'\n' ∷ cs))) (sym (codes-body a b c))
    ∙ ap rows (lines-append (body a b c) cs (one_line-body a b c h i j))
    ∙ ap (λ l. rows (l ∷ lines cs)) (codes-body a b c)
    ∙ ap (λ r. r ∷ rows (lines cs)) (cells-row a b c h i j)

field_row-eq :
    (f : Pair) (rest : String)
    → codes (String.◌++◌ (field_row f) rest) ≡ line_of f.name f.doc f.typ ++ b'\n' ∷ codes rest
unfolding field_row
field_row-eq f rest = simp (codes-append, List.append_assoc)

field_rows-read :
    (fs : List Pair) (rest : String)
    → All IsRow fs
    → rows (lines (codes (String.◌++◌ (field_rows fs) rest)))
      ≡ map (λ (f : Pair). row f.name f.doc f.typ) fs ++ rows (lines (codes rest))
unfolding field_rows
field_rows-read [] rest h = rw nil-append refl
field_rows-read (f ∷ fs) rest ((n, d, t), h) =
    ap (λ s. rows (lines (codes s))) (Text.append_assoc (field_row f) (field_rows fs) rest)
    ∙ ap (λ l. rows (lines l)) (field_row-eq f (String.◌++◌ (field_rows fs) rest))
    ∙ rows-row f.name f.doc f.typ (codes (String.◌++◌ (field_rows fs) rest)) n d t
    ∙ ap (λ r. row f.name f.doc f.typ ∷ r) (field_rows-read fs rest h)

-- A heading that is no row
abbrev pub IsHeading : String → Type 0
IsHeading s = (one_line s ≡ true) × (is_row (codes s) ≡ false)

-- A bar at the start of a cell has no backslash in front of it.
cell-not_row : (s : String) → is_cell false s ≡ true → is_row (codes s) ≡ false
unfolding is_row
cell-not_row String.[] h = refl
cell-not_row (String.◌∷◌ c s) h = ground arith

section-eq :
    (mark : String) (t : KubeTypes) (rest : String)
    → codes (String.◌++◌ (section_text mark t) rest)
      ≡ codes (String.◌++◌ mark t.strukt.name)
        ++ b'\n'
          ∷ b'\n'
          ∷ (codes t.strukt.doc
              ++ b'\n'
                ∷ b'\n'
                ∷ b'\n'
                ∷ (line_of "Field" "Description" "Scheme"
                    ++ b'\n'
                      ∷ (line_of "-----" "-----------" "------"
                          ++ b'\n' ∷ codes (String.◌++◌ (field_rows t.fields) rest))))
unfolding section_text
section-eq mark t rest = simp (codes-append, List.append_assoc)

-- An empty line is no row.
pub rows-empty : (cs : Codes) → rows (lines (b'\n' ∷ cs)) ≡ rows (lines cs)
unfolding rows lines is_row
rows-empty cs = refl

pub section-read :
    (mark : String) (t : KubeTypes) (rest : String)
    → IsHeading (String.◌++◌ mark t.strukt.name)
    → is_cell false t.strukt.doc ≡ true
    → All IsRow t.fields
    → rows (lines (codes (String.◌++◌ (section_text mark t) rest)))
      ≡ table t.fields ++ rows (lines (codes rest))
section-read mark t rest (one, plain) d h =
    ap (λ l. rows (lines l)) (section-eq mark t rest)
    ∙ rows-text (String.◌++◌ mark t.strukt.name) _ one plain
    ∙ rows-empty _
    ∙ rows-text t.strukt.doc _ (one_line_of_cell false t.strukt.doc d) (cell-not_row t.strukt.doc d)
    ∙ rows-empty _
    ∙ rows-empty _
    ∙ rows-row "Field" "Description" "Scheme" _ refl refl refl
    ∙ ap (λ r. row "Field" "Description" "Scheme" ∷ r)
        (rows-row "-----" "-----------" "------" _ refl refl refl
          ∙ ap (λ r. row "-----" "-----------" "------" ∷ r) (field_rows-read t.fields rest h))

-- A type whose page can be read back.
abbrev pub IsPrintable : KubeTypes → Type 0
IsPrintable t =
    (is_cell false t.strukt.name ≡ true) × (is_cell false t.strukt.doc ≡ true) × All IsRow t.fields

-- The tables of the types that have fields
unfoldable pub tables : List KubeTypes → List (List Codes)
unfolding has_fields
tables [] = []
tables (t ∷ ts) = (if has_fields t then table t.fields else []) ++ tables ts

pub marked-IsHeading :
    (mark s : String)
    → one_line mark ≡ true
    → ((cs : Codes) → is_row (codes mark ++ cs) ≡ false)
    → is_cell false s ≡ true
    → IsHeading (String.◌++◌ mark s)
marked-IsHeading mark s m r h =
    (one_line-append mark s m (one_line_of_cell false s h), rw codes-append (r (codes s)))

pub plugin_page-read :
    (ts : List KubeTypes) → All IsPrintable ts → read_tables (codes (plugin_page ts)) ≡ tables ts
unfolding plugin_page tables read_tables
plugin_page-read [] h = unfold rows lines is_row in refl
plugin_page-read (t ∷ ts) ((n, d, f), h) = elim (Bool-cases (has_fields t)) [
  | inl e ↦ rw e (
      section-read "# " t (plugin_page ts)
        (marked-IsHeading "# " t.strukt.name refl (λ cs. unfold is_row in refl) n) d f
      ∙ ap (λ r. table t.fields ++ r) (plugin_page-read ts h))
  | inr e ↦
      rw e (ap (λ s. rows (lines (codes s))) (nil-append (plugin_page ts)) ∙ plugin_page-read ts h)
]
