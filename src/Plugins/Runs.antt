-- ===== src/Plugins/Runs.antt =====
-- The definitions that a run of a plugin computes with, for the tests.
use fluentbit_operator.Plugins.Tls
use fluentbit_operator.Plugins.Input
use fluentbit_operator.Plugins.Filter
use fluentbit_operator.Plugins.Output
use fluentbit_operator.Plugins.Parser

unfoldable pub plugin_runs : Unit {0}
unfolding fluentbit_operator.Plugins.Filter.Grep.params
    fluentbit_operator.Plugins.Filter.Kubernetes.params
    fluentbit_operator.Plugins.Filter.Lua.insert_flag fluentbit_operator.Plugins.Filter.Lua.params
    fluentbit_operator.Plugins.Filter.Modify.insert_condition
    fluentbit_operator.Plugins.Filter.Modify.condition_params
    fluentbit_operator.Plugins.Filter.Modify.rule_params
    fluentbit_operator.Plugins.Filter.Modify.conditions_params
    fluentbit_operator.Plugins.Filter.Modify.rules_params
    fluentbit_operator.Plugins.Filter.Modify.params fluentbit_operator.Plugins.Filter.Nest.params
    fluentbit_operator.Plugins.Filter.Parser.insert_parsers
    fluentbit_operator.Plugins.Filter.Parser.params
    fluentbit_operator.Plugins.Filter.RecordModifier.params
    fluentbit_operator.Plugins.Filter.RewriteTag.params
    fluentbit_operator.Plugins.Filter.Throttle.params fluentbit_operator.Plugins.Input.Dummy.params
    fluentbit_operator.Plugins.Input.Systemd.insert_rune
    fluentbit_operator.Plugins.Input.Systemd.params
    fluentbit_operator.Plugins.Input.Tail.insert_numbered
    fluentbit_operator.Plugins.Input.Tail.show_not fluentbit_operator.Plugins.Input.Tail.params
    fluentbit_operator.Plugins.Output.DataDog.params
    fluentbit_operator.Plugins.Output.Elasticsearch.params
    fluentbit_operator.Plugins.Output.File.params fluentbit_operator.Plugins.Output.Forward.params
    fluentbit_operator.Plugins.Output.Http.params fluentbit_operator.Plugins.Output.Kafka.params
    fluentbit_operator.Plugins.Output.Loki.params fluentbit_operator.Plugins.Output.Null.params
    fluentbit_operator.Plugins.Output.Stdout.params fluentbit_operator.Plugins.Output.Syslog.params
    fluentbit_operator.Plugins.Output.Tcp.params fluentbit_operator.Plugins.Parser.Json.params
    fluentbit_operator.Plugins.Parser.Logfmt.params fluentbit_operator.Plugins.Parser.Lstv.params
    fluentbit_operator.Plugins.Parser.Regex.params fluentbit_operator.Plugins.Input.name
    fluentbit_operator.Plugins.Input.params fluentbit_operator.Plugins.Filter.name
    fluentbit_operator.Plugins.Filter.params fluentbit_operator.Plugins.Output.name
    fluentbit_operator.Plugins.Output.params fluentbit_operator.Plugins.Parser.name
    fluentbit_operator.Plugins.Parser.params fluentbit_operator.Plugins.Tls.params
    fluentbit_operator.Plugins.Tls.merge_tls fluentbit_operator.Plugins.load_secret
    fluentbit_operator.Plugins.insert_secret fluentbit_operator.Plugins.insert_joined
    fluentbit_operator.Plugins.load_config_map fluentbit_operator.Params.insert
    fluentbit_operator.Params.merge fluentbit_operator.Params.insert_string_map
    fluentbit_operator.Params.insert_text fluentbit_operator.Params.insert_some
    fluentbit_operator.Params.insert_each fluentbit_operator.Params.to_string
plugin_runs = tt
