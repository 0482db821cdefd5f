-- ===== src/Config/Stable.antt =====
-- The rendered configuration does not depend on the order in which the API lists the objects.
use text.Mathlib.TextEquality.{IsScalar-prop}
use fluentbit_operator.Prelude.{
  ◌≡◌, String, Option, List, map, Perm, Nodup, ∥∥₁_elim, sort_by-permᴰ,
}
use fluentbit_operator.Result.{Result}
use fluentbit_operator.Plugins.{SecretLoader}
use fluentbit_operator.Config.Service.{Service}
use fluentbit_operator.Config.Input
use fluentbit_operator.Config.Filter
use fluentbit_operator.Config.Output
use fluentbit_operator.Config.Parser
use fluentbit_operator.Config.Render.{render_main_config, render_parser_config}

text_set : IsSet (Result String)
text_set = hlevel IsScalar-prop

-- Objects of one kind and namespace have distinct names.
abbrev pub HasDistinctNames {ℓ} : {A : Type ℓ} → (A → String) → List A → Type 0
HasDistinctNames name xs = Nodup (map name xs)

-- Listed in another order, inputs, filters and outputs with distinct names give the same
-- configuration, or the same error.
pub render_main_config-perm :
    (service : Option Service) (sl : SecretLoader) (is is' : List Input.Input)
    (fs fs' : List Filter.Filter) (os os' : List Output.Output)
    → HasDistinctNames (λ i. i.name) is
    → HasDistinctNames (λ f. f.name) fs
    → HasDistinctNames (λ o. o.name) os
    → Perm is is'
    → Perm fs fs'
    → Perm os os'
    → render_main_config service sl is fs os ≡ render_main_config service sl is' fs' os'
unfolding render_main_config Input.load Filter.load Output.load
render_main_config-perm service sl is is' fs fs' os os' di df do' pi pf po =
    ∥∥₁_elim pi (text_set _ _) λ p. ∥∥₁_elim pf (text_set _ _) λ q. ∥∥₁_elim po (text_set _ _) λ r.
      rw (
        sort_by-permᴰ (λ i. i.name) p di,
        sort_by-permᴰ (λ f. f.name) q df,
        sort_by-permᴰ (λ o. o.name) r do',
      )

-- Listed in another order, parsers with distinct names give the same parsers file, or the same error.
pub render_parser_config-perm :
    (sl : SecretLoader) (ps ps' : List Parser.Parser)
    → HasDistinctNames (λ p. p.name) ps
    → Perm ps ps'
    → render_parser_config sl ps ≡ render_parser_config sl ps'
unfolding render_parser_config Parser.load
render_parser_config-perm sl ps ps' d p =
    ∥∥₁_elim p (text_set _ _) λ q. rw (sort_by-permᴰ (λ p. p.name) q d)
