-- ===== src/Config/Filter.antt =====
-- api/fluentbitoperator/v1alpha2/filter_types.go
use Prim.Native.String.{◌++◌}
use mathlib.Core.Option as Opt
use fluentbit_operator.Prelude.{String, Option, List, [], ◌∷◌, sort_by, ◌▸◌}
use fluentbit_operator.Result.{Result}
use fluentbit_operator.Params.{line}
use fluentbit_operator.Plugins.{SecretLoader}
use fluentbit_operator.Plugins.Filter as Plugin
use fluentbit_operator.Plugins.Filter.{
  FilterPlugin, grep, record_modifier, kubernetes, modify, nest, parser, lua, throttle, rewrite_tag,
}
use fluentbit_operator.Plugins.Filter.Grep.{Grep}
use fluentbit_operator.Plugins.Filter.RecordModifier.{RecordModifier}
use fluentbit_operator.Plugins.Filter.Kubernetes.{Kubernetes}
use fluentbit_operator.Plugins.Filter.Modify.{Modify}
use fluentbit_operator.Plugins.Filter.Nest.{Nest}
use fluentbit_operator.Plugins.Filter.Parser as FilterParser
use fluentbit_operator.Plugins.Filter.Lua.{Lua}
use fluentbit_operator.Plugins.Filter.Throttle.{Throttle}
use fluentbit_operator.Plugins.Filter.RewriteTag.{RewriteTag}
use fluentbit_operator.Config.Write.{write_text, write_params, write_fields, write_items}

pub record FilterItem : Type 0 where
  pub grep : Option Grep
  pub record_modifier : Option RecordModifier
  pub kubernetes : Option Kubernetes
  pub modify : Option Modify
  pub nest : Option Nest
  pub parser : Option FilterParser.Parser
  pub lua : Option Lua
  pub throttle : Option Throttle
  pub rewrite_tag : Option RewriteTag

pub record FilterSpec : Type 0 where
  pub match : String
  pub match_regex : String
  pub filter_items : List FilterItem

pub record Filter : Type 0 where
  pub name : String
  pub spec : FilterSpec

-- The fields of `FilterItem` as `reflect` lists them.
abbrev pub fields : FilterItem → List (Option FilterPlugin)
fields s =
    Opt.map grep s.grep
    ∷ Opt.map record_modifier s.record_modifier
    ∷ Opt.map kubernetes s.kubernetes
    ∷ Opt.map modify s.modify
    ∷ Opt.map nest s.nest
    ∷ Opt.map parser s.parser
    ∷ Opt.map lua s.lua
    ∷ Opt.map throttle s.throttle
    ∷ Opt.map rewrite_tag s.rewrite_tag
    ∷ []

-- The closure `merge` of `Load`, on a plugin that is there.
unfoldable pub merge : SecretLoader → Filter → FilterPlugin → String → Result String
unfolding write_text write_params Plugin.name Plugin.params
merge sl item p buf =
    buf ++ "[Filter]\n" ++ line "Name" (Plugin.name p)
    ▸ write_text "Match" item.spec.match
    ▸ write_text "Match_Regex" item.spec.match_regex
    ▸ write_params (Plugin.params sl p)

unfoldable pub write_item : SecretLoader → Filter → String → Result String
unfolding write_items write_fields merge
write_item sl item =
    write_items (λ elem. write_fields (merge sl item) (fields elem)) item.spec.filter_items

-- `Load`, on the items of the list
unfoldable pub load : SecretLoader → List Filter → Result String
unfolding write_items write_item sort_by
load sl items = write_items (write_item sl) (sort_by (λ item. item.name) items) ""
