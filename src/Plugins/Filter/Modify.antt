-- ===== src/Plugins/Filter/Modify.antt =====
-- api/fluentbitoperator/v1alpha2/plugins/filter/modify_types.go
use Prim.Native.String.{◌++◌}
use fluentbit_operator.Prelude.{
  String, Option, some, List, GoMap, ◌▸◌, [], ◌∷◌, ◌==◌, if◌then◌else◌,
}
use fluentbit_operator.Result.{Result, ok}
use fluentbit_operator.Params.{Kvs, new_kvs, insert, insert_text, insert_string_map, Transform}
use fluentbit_operator.Plugins.{SecretLoader}

pub record Condition : Type 0 where
  pub key_exists : String
  pub key_does_not_exist : GoMap String
  pub a_key_matches : String
  pub no_key_matches : String
  pub key_value_equals : GoMap String
  pub key_value_does_not_equal : GoMap String
  pub key_value_matches : GoMap String
  pub key_value_does_not_match : GoMap String
  pub matching_keys_have_matching_values : GoMap String
  pub matching_keys_do_not_have_matching_values : GoMap String

pub record Rule : Type 0 where
  pub set : GoMap String
  pub add : GoMap String
  pub remove : String
  pub remove_wildcard : String
  pub remove_regex : String
  pub rename : GoMap String
  pub hard_rename : GoMap String
  pub copy : GoMap String
  pub hard_copy : GoMap String

pub record Modify : Type 0 where
  pub conditions : List Condition
  pub rules : List Rule

-- `Name`
abbrev pub name : String
name = "modify"

-- the closures of the conditions
abbrev pub condition : String → Transform
condition kind k v = ("Condition", kind ++ "    " ++ k ++ "    " ++ v)

-- `if x != "" { kvs.Insert("Condition", fmt.Sprintf(kind+"    %s", x)) }`
unfoldable pub insert_condition : String → String → Kvs → Kvs
unfolding insert
insert_condition kind x kvs = if x == "" then kvs else insert "Condition" (kind ++ "    " ++ x) kvs

-- the body of the loop over the conditions
unfoldable pub condition_params : Condition → Kvs → Kvs
condition_params c kvs =
    kvs
    ▸ insert_condition "Key_exists" c.key_exists
    ▸ insert_string_map (some (condition "Key_does_not_exist")) c.key_does_not_exist
    ▸ insert_condition "A_key_matches" c.a_key_matches
    ▸ insert_condition "No_key_matches" c.no_key_matches
    ▸ insert_string_map (some (condition "Key_value_equals")) c.key_value_equals
    ▸ insert_string_map (some (condition "Key_value_does_not_equal")) c.key_value_does_not_equal
    ▸ insert_string_map (some (condition "Key_value_matches")) c.key_value_matches
    ▸ insert_string_map (some (condition "Key_value_does_not_match")) c.key_value_does_not_match
    ▸ insert_string_map (some (condition "Matching_keys_have_matching_values"))
        c.matching_keys_have_matching_values
    ▸ insert_string_map (some (condition "Matching_keys_do_not_have_matching_values"))
        c.matching_keys_do_not_have_matching_values

-- the closures of the rules
abbrev pub rule : String → Transform
rule kind k v = (kind, k ++ "    " ++ v)

-- the body of the loop over the rules
unfoldable pub rule_params : Rule → Kvs → Kvs
rule_params r kvs =
    kvs
    ▸ insert_string_map (some (rule "Set")) r.set
    ▸ insert_string_map (some (rule "Add")) r.add
    ▸ insert_text "Remove" r.remove
    ▸ insert_text "Remove_wildcard" r.remove_wildcard
    ▸ insert_text "Remove_regex" r.remove_regex
    ▸ insert_string_map (some (rule "Rename")) r.rename
    ▸ insert_string_map (some (rule "Hard_rename")) r.hard_rename
    ▸ insert_string_map (some (rule "Copy")) r.copy
    ▸ insert_string_map (some (rule "Hard_copy")) r.hard_copy

unfoldable pub conditions_params : List Condition → Kvs → Kvs
unfolding condition_params
conditions_params [] kvs = kvs
conditions_params (c ∷ cs) kvs = conditions_params cs (condition_params c kvs)

unfoldable pub rules_params : List Rule → Kvs → Kvs
unfolding rule_params
rules_params [] kvs = kvs
rules_params (r ∷ rs) kvs = rules_params rs (rule_params r kvs)

-- `Params`
unfoldable pub params : SecretLoader → Modify → Result (Option Kvs)
params _ mo = ok (some (new_kvs ▸ conditions_params mo.conditions ▸ rules_params mo.rules))
