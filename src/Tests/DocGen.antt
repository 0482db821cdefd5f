-- ===== src/Tests/DocGen.antt =====
-- The generator on two files with a struct, a description over two lines, and a field that is not shown.
use mathlib.Core.Path.{subst}
use fluentbit_operator.Prelude.{
  ◌≡◌, refl, String, Option, none, some, some-injective, List, [], ◌∷◌, codes, All, sort_by,
}
use fluentbit_operator.Result.{ok}
use fluentbit_operator.DocGen.{fmt_raw_doc}
use fluentbit_operator.DocGen.Types.{
  Expr, ident, star, array, selector, Field, TypeDoc, KubeTypes, field_type,
}
use fluentbit_operator.DocGen.Types.Printable.{IsTameType, HasTameNames}
use fluentbit_operator.DocGen.Pages.{Machine, all_types, crds, sources, crd_source}
use fluentbit_operator.DocGen.Reader.{read_tables}
use fluentbit_operator.DocGen.Reader.Rows.{tables}
use fluentbit_operator.DocGen.Reader.Crds.{HasTameFiles, crds-read}

abbrev field : String → Option String → Expr → String → Field
field name tag typ doc = record { names = name ∷ []; typ = typ; tag = tag; doc = doc }

abbrev service : TypeDoc
service = record {
  name = "Service";
  doc = "Service is the section\nof the service.\n";
  struct = some (
    10,
    (record { names = []; typ = selector "metav1" "TypeMeta"; tag = some ",inline"; doc = "" })
        ∷ field "Daemon" (some "daemon,omitempty") (star (ident "bool"))
            "Runs in the\n background | off.\n"
        ∷ field "Flush" none (array (selector "plugins" "Secret")) "+optional\nSays \"flush\".\n"
        ∷ [],
  );
}

abbrev alias : TypeDoc
alias = record { name = "Kind"; doc = ""; struct = none }

abbrev machine : Machine (List (String × String))
machine = record {
  walk = λ w dir. ok (
      "api/v1alpha2/b_types.go" ∷ "api/v1alpha2/plugins/c_types.go" ∷ "api/v1alpha2/readme.md"
      ∷ []);
  ast_from = λ w src. some (alias ∷ service ∷ []);
  write = λ path text w. (path, text) ∷ w;
}

abbrev cell_test : String
cell_test = fmt_raw_doc "Runs in the\n background | off.\n"

cell_text : cell_test ≡ "Runs in the  background \\| off."
unfolding fmt_raw_doc
cell_text = refl

link_text : field_type (array (selector "plugins" "Secret")) ≡ "[][plugins.Secret](../secret.md)"
unfolding field_type
link_text = refl

tame : HasTameFiles machine []
unfolding HasTameNames
tame src ts e = subst (All IsTameType) (some-injective (alias ∷ service ∷ []) ts e) (
  tt,
  (
    (
      refl,
      (((refl, refl), tt, refl), ((refl, (refl, tt), refl), (((refl, refl), (refl, tt), tt), tt))),
    ),
    tt,
  ),
)

crds-read_example :
    (paths : List String) × (machine.walk [] "api/v1alpha2" ≡ ok paths)
    × ((ks : List KubeTypes) × (all_types machine [] (sources crd_source paths) ≡ ok ks)
        × ((text : String) × ((crds machine []).0 ≡ ("docs/crd.md", text) ∷ [])
            × (read_tables (codes text) ≡ tables (sort_by (λ t. t.strukt.name) ks))))
unfolding crds
crds-read_example = crds-read machine [] tt tame refl
