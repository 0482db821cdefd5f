-- ===== src/Plugins/Sane/Parser.antt =====
-- The parser plugins.
use fluentbit_operator.Params.Sane.{IsSaneOption, Ensures}
use fluentbit_operator.Plugins.{SecretLoader}
use fluentbit_operator.Plugins.Rules.{step_rules}
use fluentbit_operator.Plugins.Parser.{ParserPlugin, json, regex, lstv, logfmt, params}
use fluentbit_operator.Plugins.Parser.Json
use fluentbit_operator.Plugins.Parser.Regex
use fluentbit_operator.Plugins.Parser.Lstv
use fluentbit_operator.Plugins.Parser.Logfmt

-- What a parser plugin returns, if not nil, pairs off keys and values, and its keys are words.
pub parser_params-IsSane :
    (sl : SecretLoader) (p : ParserPlugin) → Ensures IsSaneOption (params sl p)
unfolding params Json.params Regex.params Lstv.params Logfmt.params
parser_params-IsSane sl (json p) = search step_rules depth 40
parser_params-IsSane sl (regex p) = search step_rules depth 40
parser_params-IsSane sl (lstv p) = search step_rules depth 40
parser_params-IsSane sl (logfmt p) = tt
