-- ===== src/Plugins/Sane/Filter.antt =====
-- The filter plugins.
use fluentbit_operator.Prelude.{
  refl, String, ◌==◌, Bool, true, false, some, List, [], ◌∷◌, map, split, trim_spaces, Bool-cases,
  inl, inr, GoMap, All-of,
}
use fluentbit_operator.Params.{Kvs, insert_string_map, entry_key}
use fluentbit_operator.Params.Sane.{
  IsWord, IsSane, IsSaneOption, Ensures, MakesWord, insert-IsAligned, insert_each-IsAligned,
  insert_string_map-IsAligned,
}
use fluentbit_operator.Plugins.{SecretLoader}
use fluentbit_operator.Plugins.Rules.{step_rules}
use fluentbit_operator.Plugins.Filter.{
  FilterPlugin, grep, record_modifier, kubernetes, modify, nest, parser, lua, throttle, rewrite_tag,
  params,
}
use fluentbit_operator.Plugins.Filter.Grep
use fluentbit_operator.Plugins.Filter.RecordModifier
use fluentbit_operator.Plugins.Filter.Kubernetes
use fluentbit_operator.Plugins.Filter.Modify
use fluentbit_operator.Plugins.Filter.Modify.{
  Condition, Rule, condition, rule, insert_condition, condition_params, rule_params,
  conditions_params, rules_params,
}
use fluentbit_operator.Plugins.Filter.Nest
use fluentbit_operator.Plugins.Filter.Parser
use fluentbit_operator.Plugins.Filter.Parser.{insert_parsers}
use fluentbit_operator.Plugins.Filter.Lua
use fluentbit_operator.Plugins.Filter.Lua.{insert_flag}
use fluentbit_operator.Plugins.Filter.Throttle
use fluentbit_operator.Plugins.Filter.RewriteTag

insert_parsers-IsSane : {kvs : Kvs} (x : String) → IsSane kvs → IsSane (insert_parsers x kvs)
unfolding insert_parsers
insert_parsers-IsSane x h = elim (Bool-cases (x == "")) [
  | inl e ↦ rw e h
  | inr e ↦ rw e (insert_each-IsAligned "Parser" (map trim_spaces (split "," x)) refl h)
]

insert_flag-IsSane :
    {kvs : Kvs} (key : String) (b : Bool) → IsWord key → IsSane kvs → IsSane (insert_flag key b kvs)
unfolding insert_flag
insert_flag-IsSane key true w h = insert-IsAligned key "true" w h
insert_flag-IsSane key false w h = h

insert_condition-IsSane :
    {kvs : Kvs} (kind x : String) → IsSane kvs → IsSane (insert_condition kind x kvs)
unfolding insert_condition
insert_condition-IsSane kind x h = elim (Bool-cases (x == "")) [
  | inl e ↦ rw e h
  | inr e ↦ rw e (insert-IsAligned "Condition" _ refl h)
]

condition_map-IsSane :
    {kvs : Kvs} (kind : String) (m : GoMap String)
    → IsSane kvs
    → IsSane (insert_string_map (some (condition kind)) m kvs)
condition_map-IsSane kind m h =
    insert_string_map-IsAligned (condition kind) m
      (All-of (MakesWord IsWord (condition kind)) (λ k v. refl) (map entry_key m)) h

rule_map-IsSane :
    {kvs : Kvs} (kind : String) (m : GoMap String)
    → IsWord kind
    → IsSane kvs
    → IsSane (insert_string_map (some (rule kind)) m kvs)
rule_map-IsSane kind m w h =
    insert_string_map-IsAligned (rule kind) m
      (All-of (MakesWord IsWord (rule kind)) (λ k v. w) (map entry_key m)) h

condition_params-IsSane : (c : Condition) {kvs : Kvs} → IsSane kvs → IsSane (condition_params c kvs)
unfolding condition_params
condition_params-IsSane c h = search (insert_condition-IsSane, condition_map-IsSane) depth 20

rule_params-IsSane : (r : Rule) {kvs : Kvs} → IsSane kvs → IsSane (rule_params r kvs)
unfolding rule_params
rule_params-IsSane r h = search (step_rules, rule_map-IsSane) depth 20

conditions_params-IsSane :
    (cs : List Condition) {kvs : Kvs} → IsSane kvs → IsSane (conditions_params cs kvs)
unfolding conditions_params
conditions_params-IsSane [] h = h
conditions_params-IsSane (c ∷ cs) h = conditions_params-IsSane cs (condition_params-IsSane c h)

rules_params-IsSane : (rs : List Rule) {kvs : Kvs} → IsSane kvs → IsSane (rules_params rs kvs)
unfolding rules_params
rules_params-IsSane [] h = h
rules_params-IsSane (r ∷ rs) h = rules_params-IsSane rs (rule_params-IsSane r h)

ruleset filter_rules = (
  step_rules, insert_parsers-IsSane, insert_flag-IsSane, conditions_params-IsSane,
  rules_params-IsSane,
)

-- What a filter plugin returns pairs off keys and values, and its keys are words.
pub filter_params-IsSane :
    (sl : SecretLoader) (p : FilterPlugin) → Ensures IsSaneOption (params sl p)
unfolding params Grep.params RecordModifier.params Kubernetes.params Modify.params Nest.params
    Parser.params Lua.params Throttle.params RewriteTag.params
filter_params-IsSane sl (grep p) = search filter_rules depth 40
filter_params-IsSane sl (record_modifier p) = search filter_rules depth 40
filter_params-IsSane sl (kubernetes p) = search filter_rules depth 40
filter_params-IsSane sl (modify p) = search filter_rules depth 40
filter_params-IsSane sl (nest p) = search filter_rules depth 40
filter_params-IsSane sl (parser p) = search filter_rules depth 40
filter_params-IsSane sl (lua p) = search filter_rules depth 40
filter_params-IsSane sl (throttle p) = search filter_rules depth 40
filter_params-IsSane sl (rewrite_tag p) = search filter_rules depth 40
