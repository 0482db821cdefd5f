-- ===== src/Plugins/Sane/Returns.antt =====
-- The input, filter and parser plugins read no secret, so their parameters are always there.
use fluentbit_operator.Prelude.{refl}
use fluentbit_operator.Params.Sane.{IsSaneOption, Returns, Returns-of}
use fluentbit_operator.Plugins.{SecretLoader}
use fluentbit_operator.Plugins.Input as Inputs
use fluentbit_operator.Plugins.Input.{InputPlugin, dummy, tail, systemd}
use fluentbit_operator.Plugins.Input.Dummy as InputDummy
use fluentbit_operator.Plugins.Input.Tail as InputTail
use fluentbit_operator.Plugins.Input.Systemd as InputSystemd
use fluentbit_operator.Plugins.Sane.Input.{input_params-IsSane}
use fluentbit_operator.Plugins.Filter as Filters
use fluentbit_operator.Plugins.Filter.{
  FilterPlugin, grep, record_modifier, kubernetes, modify, nest, parser, lua, throttle, rewrite_tag,
}
use fluentbit_operator.Plugins.Filter.Grep as FilterGrep
use fluentbit_operator.Plugins.Filter.RecordModifier as FilterRecordModifier
use fluentbit_operator.Plugins.Filter.Kubernetes as FilterKubernetes
use fluentbit_operator.Plugins.Filter.Modify as FilterModify
use fluentbit_operator.Plugins.Filter.Nest as FilterNest
use fluentbit_operator.Plugins.Filter.Parser as FilterParser
use fluentbit_operator.Plugins.Filter.Lua as FilterLua
use fluentbit_operator.Plugins.Filter.Throttle as FilterThrottle
use fluentbit_operator.Plugins.Filter.RewriteTag as FilterRewriteTag
use fluentbit_operator.Plugins.Sane.Filter.{filter_params-IsSane}

-- The parameters of an input plugin are returned, whatever the secrets; if they are not nil, keys and values pair
-- off, and every key is a word.
pub input_params-Returns :
    (sl : SecretLoader) (p : InputPlugin) → Returns IsSaneOption (Inputs.params sl p)
unfolding Inputs.params InputDummy.params InputTail.params InputSystemd.params
input_params-Returns sl (dummy p) = Returns-of refl (input_params-IsSane sl (dummy p))
input_params-Returns sl (tail p) = Returns-of refl (input_params-IsSane sl (tail p))
input_params-Returns sl (systemd p) = Returns-of refl (input_params-IsSane sl (systemd p))

-- The parameters of a filter plugin are returned, whatever the secrets; if they are not nil, keys and values pair
-- off, and every key is a word.
pub filter_params-Returns :
    (sl : SecretLoader) (p : FilterPlugin) → Returns IsSaneOption (Filters.params sl p)
unfolding Filters.params FilterGrep.params FilterRecordModifier.params FilterKubernetes.params
    FilterModify.params FilterNest.params FilterParser.params FilterLua.params FilterThrottle.params
    FilterRewriteTag.params
filter_params-Returns sl (grep p) = Returns-of refl (filter_params-IsSane sl (grep p))
filter_params-Returns sl (record_modifier p) =
    Returns-of refl (filter_params-IsSane sl (record_modifier p))
filter_params-Returns sl (kubernetes p) = Returns-of refl (filter_params-IsSane sl (kubernetes p))
filter_params-Returns sl (modify p) = Returns-of refl (filter_params-IsSane sl (modify p))
filter_params-Returns sl (nest p) = Returns-of refl (filter_params-IsSane sl (nest p))
filter_params-Returns sl (parser p) = Returns-of refl (filter_params-IsSane sl (parser p))
filter_params-Returns sl (lua p) = Returns-of refl (filter_params-IsSane sl (lua p))
filter_params-Returns sl (throttle p) = Returns-of refl (filter_params-IsSane sl (throttle p))
filter_params-Returns sl (rewrite_tag p) = Returns-of refl (filter_params-IsSane sl (rewrite_tag p))
