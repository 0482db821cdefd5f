-- ===== src/Tests/Plugins.antt =====
-- Instances of the theorems on the plugins, their parameters, and the helpers.

use mathlib.Core.List.Permᴰ
use fluentbit_operator.Tests.Names.{two_names}
use fluentbit_operator.Prelude.{◌≡◌, refl, String, true, none, some, List, [], ◌∷◌, map, codes}
use fluentbit_operator.Result.{ok, err, not_found}
use fluentbit_operator.Params.Sane.{AnyKey, IsSaneOption, IsAlignedOption, Ensures, Returns}
use fluentbit_operator.Plugins.{Secret, SecretLoader, load_secret}
use fluentbit_operator.Plugins.Secrets.{forget, load_all, output_secrets, params-eq-load_all}
use fluentbit_operator.Plugins.Input as Inputs
use fluentbit_operator.Plugins.Filter as Filters
use fluentbit_operator.Plugins.Output as Outputs
use fluentbit_operator.Plugins.Output.Http.{Http}
use fluentbit_operator.Plugins.Output.Kafka.{Kafka}
use fluentbit_operator.Plugins.Parser.Json.{Json}
use fluentbit_operator.Plugins.Sane.Output.{output_params-IsSane, output_params-IsAligned}
use fluentbit_operator.Plugins.Sane.Returns.{input_params-Returns, filter_params-Returns}
use fluentbit_operator.Config.Example.{no_secrets, tail_plugin, modify_plugin}
use fluentbit_operator.Config.Parser.{Parser, load}
use fluentbit_operator.Config.Render.{render_parser_config}
use fluentbit_operator.Config.Sections.{Section, print}
use fluentbit_operator.Config.Sections.Load.{behind}
use fluentbit_operator.Config.Sections.Parser.{sections, parser_load-eq-print}
use fluentbit_operator.Config.Reader.{read, read_as}
use fluentbit_operator.Config.Reader.Parser.{render_parser_config-read}
use fluentbit_operator.Plugins.Runs.{plugin_runs}
use fluentbit_operator.Tests.Rendering.{readable_sound}
use fluentbit_operator.Tests.Names.{or_else}
use fluentbit_operator.Config.Stable.{render_parser_config-perm}

abbrev secret : Secret
secret = record { name = "credentials"; key = "user" }

abbrev with_secret : Http
with_secret = record {
  host = "";
  http_user = some secret;
  http_passwd = none;
  port = none;
  proxy = "";
  uri = "";
  compress = "";
  format = "";
  allow_duplicated_headers = none;
  header_tag = "";
  headers = [];
  json_date_key = "";
  json_date_format = "";
  gelf_timestamp_key = "";
  gelf_host_key = "";
  gelf_short_messge_key = "";
  gelf_full_message_key = "";
  gelf_level_key = "";
  tls = none;
}

-- A client whose secret lacks the key.
abbrev client : SecretLoader
client = record { get = λ ns name. ok (("password", "x") ∷ []); namespace = "fluent" }

params-eq-load_all_example :
    forget (Outputs.params client (Outputs.http with_secret)) ≡ load_all client (secret ∷ [])
unfolding output_secrets
params-eq-load_all_example = params-eq-load_all client (Outputs.http with_secret)

load_all_test : load_all client (secret ∷ []) ≡ err (not_found "The key user is not found.")
unfolding load_all load_secret
load_all_test = refl

abbrev kafka_plugin : Kafka
kafka_plugin = record {
  format = "json";
  message_key = "";
  message_key_field = "";
  timestamp_key = "";
  timestamp_format = "";
  brokers = "192.168.1.3:9092";
  topics = "test";
  topic_key = "";
  rdkafka = ("queue.buffering.max.ms", "5") ∷ ("acks", "all") ∷ [];
}

output_params-IsSane_example :
    Ensures IsSaneOption (Outputs.params no_secrets (Outputs.kafka kafka_plugin))
output_params-IsSane_example =
    output_params-IsSane no_secrets (Outputs.kafka kafka_plugin) (refl, (refl, tt))

output_params-IsAligned_example :
    Ensures (IsAlignedOption AnyKey) (Outputs.params client (Outputs.http with_secret))
output_params-IsAligned_example = output_params-IsAligned client (Outputs.http with_secret)

input_params-Returns_example :
    Returns IsSaneOption (Inputs.params no_secrets (Inputs.tail tail_plugin))
input_params-Returns_example = input_params-Returns no_secrets (Inputs.tail tail_plugin)

filter_params-Returns_example :
    Returns IsSaneOption (Filters.params no_secrets (Filters.modify modify_plugin))
filter_params-Returns_example = filter_params-Returns no_secrets (Filters.modify modify_plugin)

abbrev json_plugin : Json
json_plugin = record { time_key = "time"; time_format = "%d/%b/%Y"; time_keep = some true }

abbrev parser_item : String → Parser
parser_item name = record {
  name = name;
  spec = record {
    json = some json_plugin;
    regex = none;
    ltsv = none;
    logfmt = none;
    decoders = record { decode_field = "json log"; decode_field_as = "" } ∷ [];
  };
}

parser_load-eq-print_example :
    load no_secrets (parser_item "b" ∷ parser_item "a" ∷ [])
    ≡ behind print "" (sections no_secrets (parser_item "b" ∷ parser_item "a" ∷ []))
parser_load-eq-print_example =
    parser_load-eq-print no_secrets (parser_item "b" ∷ parser_item "a" ∷ [])

render_parser_config-perm_example :
    render_parser_config no_secrets (parser_item "b" ∷ parser_item "a" ∷ [])
    ≡ render_parser_config no_secrets (parser_item "a" ∷ parser_item "b" ∷ [])
render_parser_config-perm_example =
    render_parser_config-perm no_secrets (parser_item "b" ∷ parser_item "a" ∷ [])
      (parser_item "a" ∷ parser_item "b" ∷ []) (two_names "b" "a" refl) ∣ Permᴰ.swap refl refl ∣₁

abbrev parser_sections : List Section
parser_sections = or_else [] (sections no_secrets (parser_item "b" ∷ parser_item "a" ∷ []))

render_parser_config-read_example :
    (text : String) × (render_parser_config no_secrets (parser_item "b" ∷ parser_item "a" ∷ [])
      ≡ ok text)
    × (read (codes text) ≡ map read_as parser_sections)
unfolding sections plugin_runs
render_parser_config-read_example =
    render_parser_config-read no_secrets (parser_item "b" ∷ parser_item "a" ∷ []) parser_sections
      refl (readable_sound parser_sections refl)

first_header_test : map (λ s. s.header) parser_sections ≡ "PARSER" ∷ "PARSER" ∷ []
unfolding sections plugin_runs
first_header_test = refl
