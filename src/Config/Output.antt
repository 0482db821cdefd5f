-- ===== src/Config/Output.antt =====
-- api/fluentbitoperator/v1alpha2/output_types.go
use Prim.Native.String.{◌++◌}
use mathlib.Core.Option as Opt
use fluentbit_operator.Prelude.{String, Option, none, List, [], ◌∷◌, sort_by, ◌▸◌}
use fluentbit_operator.Result.{Result}
use fluentbit_operator.Params.{line}
use fluentbit_operator.Plugins.{SecretLoader}
use fluentbit_operator.Plugins.Output as Plugin
use fluentbit_operator.Plugins.Output.{
  OutputPlugin, elasticsearch, file, forward, http, kafka, null, stdout, tcp, loki, syslog, datadog,
}
use fluentbit_operator.Plugins.Output.Elasticsearch.{Elasticsearch}
use fluentbit_operator.Plugins.Output.File.{File}
use fluentbit_operator.Plugins.Output.Forward.{Forward}
use fluentbit_operator.Plugins.Output.Http.{Http}
use fluentbit_operator.Plugins.Output.Kafka.{Kafka}
use fluentbit_operator.Plugins.Output.Null.{Null}
use fluentbit_operator.Plugins.Output.Stdout.{Stdout}
use fluentbit_operator.Plugins.Output.Tcp.{Tcp}
use fluentbit_operator.Plugins.Output.Loki.{Loki}
use fluentbit_operator.Plugins.Output.Syslog.{Syslog}
use fluentbit_operator.Plugins.Output.DataDog.{DataDog}
use fluentbit_operator.Config.Write.{write_text, write_params, write_fields, write_items}

pub record OutputSpec : Type 0 where
  pub match : String
  pub match_regex : String
  pub alias : String
  pub retry_limit : String
  pub elasticsearch : Option Elasticsearch
  pub file : Option File
  pub forward : Option Forward
  pub http : Option Http
  pub kafka : Option Kafka
  pub null : Option Null
  pub stdout : Option Stdout
  pub tcp : Option Tcp
  pub loki : Option Loki
  pub syslog : Option Syslog
  pub data_dog : Option DataDog

pub record Output : Type 0 where
  pub name : String
  pub spec : OutputSpec

-- The fields of `OutputSpec` from the third on, as `reflect` lists them; a string is no `Plugin`.
abbrev pub fields : OutputSpec → List (Option OutputPlugin)
fields s =
    none
    ∷ none
    ∷ Opt.map elasticsearch s.elasticsearch
    ∷ Opt.map file s.file
    ∷ Opt.map forward s.forward
    ∷ Opt.map http s.http
    ∷ Opt.map kafka s.kafka
    ∷ Opt.map null s.null
    ∷ Opt.map stdout s.stdout
    ∷ Opt.map tcp s.tcp
    ∷ Opt.map loki s.loki
    ∷ Opt.map syslog s.syslog
    ∷ Opt.map datadog s.data_dog
    ∷ []

-- The closure `merge` of `Load`, on a plugin that is there.
unfoldable pub merge : SecretLoader → Output → OutputPlugin → String → Result String
unfolding write_text write_params Plugin.name Plugin.params
merge sl item p buf =
    buf ++ "[Output]\n" ++ line "Name" (Plugin.name p)
    ▸ write_text "Match" item.spec.match
    ▸ write_text "Match_Regex" item.spec.match_regex
    ▸ write_text "Alias" item.spec.alias
    ▸ write_text "Retry_Limit" item.spec.retry_limit
    ▸ write_params (Plugin.params sl p)

unfoldable pub write_item : SecretLoader → Output → String → Result String
unfolding write_fields merge
write_item sl item = write_fields (merge sl item) (fields item.spec)

-- `Load`, on the items of the list
unfoldable pub load : SecretLoader → List Output → Result String
unfolding write_items write_item sort_by
load sl items = write_items (write_item sl) (sort_by (λ item. item.name) items) ""
