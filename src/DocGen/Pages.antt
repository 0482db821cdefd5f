-- ===== src/DocGen/Pages.antt =====
-- `plugins` and `crds`: the pages, from the files that `filepath.Walk` finds, over a machine. That a page could not be
-- created or written is not noticed.

use Prim.Native.String.{String, ◌++◌}
use fluentbit_operator.Prelude.{
  Bool, true, false, not, ◌&&◌, Option, List, [], ◌∷◌, has_suffix, trim_suffix, to_lower, sort_by,
  if◌then◌else◌,
}
use mathlib.Core.List
use fluentbit_operator.Result
use fluentbit_operator.Result.{Result, ok, err, panicked}
use fluentbit_operator.Run.{Run, continue, ◌>>=◌, ◌>>◌, return, read}
use fluentbit_operator.DocGen.{has_prefix, contains, replace}
use fluentbit_operator.DocGen.Types.{TypeDoc, Pair, KubeTypes, parse_documentation_from}

pub record Machine (World : Type 0) : Type 0 where
  -- the files below a directory, by their paths
  pub walk : World → String → Result (List String)
  -- `astFrom`
  pub ast_from : World → String → Option (List TypeDoc)
  -- `os.Create` and `WriteString`
  pub write : String → String → World → World

unfoldable pub field_row : Pair → String
field_row f = "| " ++ f.name ++ " | " ++ f.doc ++ " | " ++ f.typ ++ " |\n"

unfoldable pub field_rows : List Pair → String
unfolding field_row
field_rows [] = ""
field_rows (f ∷ fs) = field_row f ++ field_rows fs

-- A heading, the comment of the type, and a table
unfoldable pub section_text : String → KubeTypes → String
unfolding field_rows
section_text mark t =
    (mark ++ t.strukt.name ++ "\n\n" ++ t.strukt.doc ++ "\n\n\n")
    ++ "| Field | Description | Scheme |\n"
    ++ "| ----- | ----------- | ------ |\n"
    ++ field_rows t.fields

unfoldable pub has_fields : KubeTypes → Bool
has_fields t = elim t.fields [ [] ↦ false | _ ∷ _ ↦ true ]

-- The loop of `plugins` over the types of a file
unfoldable pub plugin_page : List KubeTypes → String
unfolding section_text has_fields
plugin_page [] = ""
plugin_page (t ∷ ts) = (if has_fields t then section_text "# " t else "") ++ plugin_page ts

unfoldable pub to_section_link : String → String
unfolding to_lower replace
to_section_link name = replace " " "-" (to_lower name)

unfoldable pub toc_lines : List KubeTypes → String
unfolding to_section_link has_fields
toc_lines [] = ""
toc_lines (t ∷ ts) =
    (if has_fields t
      then "* [" ++ t.strukt.name ++ "](#" ++ to_section_link t.strukt.name ++ ")\n"
      else "")
    ++ toc_lines ts

unfoldable pub print_toc : List KubeTypes → String
unfolding toc_lines
print_toc types = "\n## Table of Contents\n" ++ toc_lines types

unfoldable pub crd_sections : List KubeTypes → String
unfolding section_text has_fields
crd_sections [] = ""
crd_sections (t ∷ ts) =
    (if has_fields t
      then section_text "## " t ++ "\n" ++ "[Back to TOC](#table-of-contents)\n"
      else "")
    ++ crd_sections ts

abbrev pub first_paragraph : String
first_paragraph =
    "# API Docs\n"
    ++ "This Document documents the types introduced by the Fluent Bit Operator to be consumed by users.\n"
    ++ "> Note this document is generated from code comments. When contributing a change to this document please do so by changing the code comments."

unfoldable pub crd_page : List KubeTypes → String
unfolding print_toc crd_sections
crd_page types = first_paragraph ++ print_toc types ++ crd_sections types

-- `strings.TrimPrefix`
unfoldable pub trim_prefix : String → String → String
trim_prefix s String.[] = s
trim_prefix String.[] (String.◌∷◌ d t) = ""
trim_prefix (String.◌∷◌ c s) (String.◌∷◌ d t) =
    if has_prefix (String.◌∷◌ c s) (String.◌∷◌ d t) then trim_prefix s t else String.◌∷◌ c s

unfoldable pub plugin_source : String → Bool
unfolding has_suffix
plugin_source path = has_suffix path "_types.go"

unfoldable pub crd_source : String → Bool
unfolding has_suffix contains
crd_source path = not (contains path "/plugins") && has_suffix path "_types.go"

unfoldable pub sources : (String → Bool) → List String → List String
sources test [] = []
sources test (p ∷ ps) = let rest = sources test ps in if test p then p ∷ rest else rest

-- `if err != nil { panic(err) }`
unfoldable pub or_panic : {A : Type 0} → Result A → Result A
or_panic (ok a) = ok a
or_panic (err e) = err panicked

unfoldable pub page_path : String → String
unfolding trim_prefix trim_suffix
page_path src =
    "docs/plugins/" ++ trim_suffix (trim_prefix src "api/v1alpha2/plugins/") "_types.go" ++ ".md"

module _ {World : Type 0} (m : Machine World) where
  unfoldable pub save : String → String → Run World (Unit {0})
  save path text w = (m.write path text w, ok tt)

  unfoldable pub write_plugins : List String → Run World (Unit {0})
  unfolding parse_documentation_from plugin_page page_path save continue
  write_plugins [] = return tt
  write_plugins (src ∷ srcs) = do
    types ← read (λ w. parse_documentation_from (m.ast_from w src) true)
    save (page_path src) (plugin_page types)
    write_plugins srcs

  unfoldable pub plugins : Run World (Unit {0})
  unfolding plugin_source sources or_panic write_plugins continue
  plugins = do
    paths ← read (λ w. or_panic (m.walk w "api/v1alpha2/plugins"))
    write_plugins (sources plugin_source paths)

  unfoldable pub all_types : World → List String → Result (List KubeTypes)
  unfolding parse_documentation_from
  all_types w [] = ok []
  all_types w (src ∷ srcs) =
      Result.◌>>=◌ (parse_documentation_from (m.ast_from w src) false)
        (λ types. Result.◌>>=◌ (all_types w srcs) (λ rest. ok (List.◌++◌ types rest)))

  -- `crds` from the types on, and from the paths on
  unfoldable pub write_crds : List KubeTypes → Run World (Unit {0})
  unfolding sort_by crd_page save
  write_crds types = save "docs/crd.md" (crd_page (sort_by (λ t. t.strukt.name) types))

  unfoldable pub crds_from : List String → Run World (Unit {0})
  unfolding crd_source sources all_types write_crds continue
  crds_from paths = read (λ w. all_types w (sources crd_source paths)) >>= write_crds

  unfoldable pub crds : Run World (Unit {0})
  unfolding or_panic crds_from continue
  crds = read (λ w. or_panic (m.walk w "api/v1alpha2")) >>= crds_from

  -- `main`
  unfoldable pub generate : Run World (Unit {0})
  unfolding plugins crds continue
  generate = plugins >> crds
