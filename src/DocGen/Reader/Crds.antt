-- ===== src/DocGen/Reader/Crds.antt =====
-- What docs/crd.md reads back as.

use Prim.Native.String.{String, ◌++◌}
use mathlib.Core.List
use text.Mathlib.TextLemmas.{nil-append, append_assoc}
use fluentbit_operator.Prelude.{
  ◌≡◌, refl, sym, ap, ◌∙◌, Bool, true, false, Option, none, some, sort_by, sort_by-perm, All-append,
  All-perm, List, [], ◌∷◌, codes, codes-append, to_lower, All, Bool-cases, inl, inr,
}
use mathlib.Core.Path.{subst}
use mathlib.Core.List.Permᴰ
use fluentbit_operator.Result.{Result, ok, err, bind_ok, ok-injective}
use fluentbit_operator.Run.{read}
use fluentbit_operator.Run.Laws.{then_ok}
use fluentbit_operator.Config.Reader.{Codes, lines, one_line}
use fluentbit_operator.Config.Reader.RoundTrip.{one_line-append}
use fluentbit_operator.DocGen.{replace}
use fluentbit_operator.DocGen.Types.{TypeDoc, KubeTypes, parse_documentation_from}
use fluentbit_operator.DocGen.Types.Printable.{IsTameType, parse_documentation-IsPrintable}
use fluentbit_operator.DocGen.Pages.{
  Machine, all_types, write_crds, crds_from, crds, save, sources, crd_source, or_panic, has_fields,
  plugin_page, to_section_link, toc_lines, print_toc, crd_sections, crd_page,
}
use fluentbit_operator.DocGen.Cells.{one_line_of_cell, one_line-replace, one_line-to_lower}
use fluentbit_operator.DocGen.Reader.{is_row, rows, read_tables}
use fluentbit_operator.DocGen.Reader.Rows.{
  IsPrintable, tables, table, rows-text, section-read, marked-IsHeading, plugin_page-read,
}

-- The rows of a text
abbrev rows_of : String → List (List Codes)
rows_of s = rows (lines (codes s))

-- A text whose first line is no row
rows-line :
    (text s rest : String)
    → codes text ≡ List.◌++◌ (codes s) (b'\n' ∷ codes rest)
    → one_line s ≡ true
    → is_row (codes s) ≡ false
    → rows_of text ≡ rows_of rest
rows-line text s rest e h i = ap (λ l. rows (lines l)) e ∙ rows-text s (codes rest) h i

-- The line of a type in the table of contents, without its end
abbrev entry : String → String
entry name = "* [" ++ name ++ "](#" ++ to_section_link name ++ ")"

one_line-entry : (name : String) → one_line name ≡ true → one_line (entry name) ≡ true
unfolding to_section_link
one_line-entry name h =
    let link = replace " " "-" (to_lower name) in
    let close =
      one_line-append link ")"
        (one_line-replace " " "-" (to_lower name) refl (one_line-to_lower name ∙ h)) refl in
    one_line-append "* [" (name ++ "](#" ++ link ++ ")") refl (
      one_line-append name ("](#" ++ link ++ ")") h
        (one_line-append "](#" (link ++ ")") refl close))

toc-read :
    (ts : List KubeTypes) (rest : String)
    → All IsPrintable ts
    → rows_of (toc_lines ts ++ rest) ≡ rows_of rest
unfolding toc_lines
toc-read [] rest h = rw nil-append refl
toc-read (t ∷ ts) rest ((n, d, f), h) = elim (Bool-cases (has_fields t)) [
  | inl e ↦ rw e (
      rows-line _ (entry t.strukt.name) (toc_lines ts ++ rest)
        (simp (codes-append, List.append_assoc))
        (one_line-entry t.strukt.name (one_line_of_cell false t.strukt.name n))
        (rw codes-append (unfold is_row in refl))
      ∙ toc-read ts rest h)
  | inr e ↦ rw (e, nil-append) (toc-read ts rest h)
]

sections-read : (ts : List KubeTypes) → All IsPrintable ts → rows_of (crd_sections ts) ≡ tables ts
unfolding crd_sections tables
sections-read [] h = unfold rows lines is_row in refl
sections-read (t ∷ ts) ((n, d, f), h) = elim (Bool-cases (has_fields t)) [
  | inl e ↦ rw e (
      ap rows_of (simp append_assoc)
      ∙ section-read "## " t ("\n" ++ "[Back to TOC](#table-of-contents)\n" ++ crd_sections ts)
          (marked-IsHeading "## " t.strukt.name refl (λ cs. unfold is_row in refl) n) d f
      ∙ ap (λ r. List.◌++◌ (table t.fields) r)
          (rows-line _ "" ("[Back to TOC](#table-of-contents)\n" ++ crd_sections ts)
              (simp codes-append) refl (unfold is_row in refl)
            ∙ rows-line _ "[Back to TOC](#table-of-contents)" (crd_sections ts) (simp codes-append)
                refl (unfold is_row in refl)
            ∙ sections-read ts h))
  | inr e ↦ rw (e, nil-append) (sections-read ts h)
]

abbrev second_line : String
second_line =
    "This Document documents the types introduced by the Fluent Bit Operator to be consumed by users."

abbrev third_line : String
third_line =
    "> Note this document is generated from code comments. When contributing a change to this document please do so by changing the code comments."

crd_page-eq :
    (ts : List KubeTypes) → rows_of (crd_page ts) ≡ rows_of (toc_lines ts ++ crd_sections ts)
unfolding crd_page print_toc
crd_page-eq ts =
    let body = toc_lines ts ++ crd_sections ts in
    let contents = "## Table of Contents" ++ "\n" ++ body in
    let from_third = third_line ++ "\n" ++ contents in
    let from_second = second_line ++ "\n" ++ from_third in
    rows-line (crd_page ts) "# API Docs" from_second (simp (codes-append, List.append_assoc)) refl
      (unfold is_row in refl)
    ∙ rows-line from_second second_line from_third (simp codes-append) refl (unfold is_row in refl)
    ∙ rows-line from_third third_line contents (simp codes-append) refl (unfold is_row in refl)
    ∙ rows-line contents "## Table of Contents" body (simp codes-append) refl
        (unfold is_row in refl)

pub crd_page-read :
    (ts : List KubeTypes) → All IsPrintable ts → read_tables (codes (crd_page ts)) ≡ tables ts
unfolding read_tables
crd_page-read ts h = crd_page-eq ts ∙ toc-read ts (crd_sections ts) h ∙ sections-read ts h

or_panic_ok : {A : Type 0} (r : Result A) (a : A) → or_panic r ≡ ok a → r ≡ ok a
unfolding or_panic
or_panic_ok (ok b) a e = e
or_panic_ok (err x) a e = cc

module _ {World : Type 0} (m : Machine World) where
  -- The names in every file that can be parsed are tame.
  abbrev pub HasTameFiles : World → Type 0
  HasTameFiles w =
      (src : String) (ts : List TypeDoc) → m.ast_from w src ≡ some ts → All IsTameType ts

  parsed-IsPrintable :
      (o : Option (List TypeDoc)) (sorted : Bool) (ks : List KubeTypes)
      → ((ts : List TypeDoc) → o ≡ some ts → All IsTameType ts)
      → parse_documentation_from o sorted ≡ ok ks
      → All IsPrintable ks
  unfolding parse_documentation_from
  parsed-IsPrintable none sorted ks h e = cc
  parsed-IsPrintable (some ts) sorted ks h e =
      parse_documentation-IsPrintable ts sorted ks (h ts refl) e

  -- The page of the plugins of a file
  pub plugin_file-read :
      (w : World) (src : String) (ks : List KubeTypes)
      → HasTameFiles w
      → parse_documentation_from (m.ast_from w src) true ≡ ok ks
      → read_tables (codes (plugin_page ks)) ≡ tables ks
  plugin_file-read w src ks h e =
      plugin_page-read ks (parsed-IsPrintable (m.ast_from w src) true ks (h src) e)

  all_types-IsPrintable :
      (w : World) (srcs : List String) (ks : List KubeTypes)
      → HasTameFiles w
      → all_types m w srcs ≡ ok ks
      → All IsPrintable ks
  unfolding all_types
  all_types-IsPrintable w [] ks h e = subst (All IsPrintable) (ok-injective [] ks e) tt
  all_types-IsPrintable w (src ∷ srcs) ks h e =
      let (types, et, e') = bind_ok (parse_documentation_from (m.ast_from w src) false) _ ks e in
      let (rest, er, e'') = bind_ok (all_types m w srcs) _ ks e' in
      subst (All IsPrintable) (ok-injective _ ks e'') (
        All-append IsPrintable types rest
          (parsed-IsPrintable (m.ast_from w src) false types (h src) et)
          (all_types-IsPrintable w srcs rest h er))

  -- Where the names of the declarations in the files are tame, and `crds` does not panic, it has written docs/crd.md, the
  -- tables of which read back: the types of the files, sorted by name, with two rows of a header, and one row for each
  -- field that is shown, in order, with its name, description and type, for each type that has such fields.
  pub crds-read :
      (w : World) (u : Unit {0})
      → HasTameFiles w
      → (crds m w).1 ≡ ok u
      → (paths : List String) × (m.walk w "api/v1alpha2" ≡ ok paths)
        × ((ks : List KubeTypes) × (all_types m w (sources crd_source paths) ≡ ok ks)
            × ((text : String) × ((crds m w).0 ≡ m.write "docs/crd.md" text w)
                × (read_tables (codes text) ≡ tables (sort_by (λ t. t.strukt.name) ks))))
  unfolding crds crds_from write_crds save
  crds-read w u h e =
      let (paths, walked, same) =
        then_ok (read (λ w'. or_panic (m.walk w' "api/v1alpha2"))) (crds_from m) w u e in
      let e' = sym (ap (λ p. p.1) same) ∙ e in
      let (ks, all, same') =
        then_ok (read (λ w'. all_types m w' (sources crd_source paths))) (write_crds m) w u e' in
      (
        paths,
        or_panic_ok (m.walk w "api/v1alpha2") paths walked,
        (
          ks,
          all,
          (
            crd_page (sort_by (λ t. t.strukt.name) ks),
            ap (λ p. p.0) (same ∙ same'),
            crd_page-read (sort_by (λ t. t.strukt.name) ks) (
                All-perm IsPrintable (Permᴰ.symm (sort_by-perm (λ t. t.strukt.name) ks))
                  (all_types-IsPrintable w (sources crd_source paths) ks h all)),
          ),
        ),
      )
