-- ===== src/Plugins/Sane/Output.antt =====
-- The output plugins. The keys of the Kafka output are in part the user's.
use fluentbit_operator.Prelude.{
  ◌≡◌, refl, String, true, some, List, [], ◌∷◌, map, GoMap, All, All-of,
}
use fluentbit_operator.Params.{Kvs, insert_string_map, entry_key}
use fluentbit_operator.Params.Sane.{
  all_plain, IsWord, IsSane, IsAligned, IsAlignedOption, IsAlignedOption-any, AnyKey, IsSaneOption,
  Ensures, MakesWord, insert_string_map-IsAligned,
}
use fluentbit_operator.Params.Words.{IsWord-append}
use fluentbit_operator.Plugins.{SecretLoader}
use fluentbit_operator.Plugins.Rules.{step_rules, output_rules}
use fluentbit_operator.Plugins.Output.{
  OutputPlugin, elasticsearch, file, forward, http, kafka, null, stdout, tcp, loki, syslog, datadog,
  params,
}
use fluentbit_operator.Plugins.Output.Elasticsearch
use fluentbit_operator.Plugins.Output.File
use fluentbit_operator.Plugins.Output.Forward
use fluentbit_operator.Plugins.Output.Http
use fluentbit_operator.Plugins.Output.Http.{header}
use fluentbit_operator.Plugins.Output.Kafka
use fluentbit_operator.Plugins.Output.Kafka.{rdkafka}
use fluentbit_operator.Plugins.Output.Null
use fluentbit_operator.Plugins.Output.Stdout
use fluentbit_operator.Plugins.Output.Tcp
use fluentbit_operator.Plugins.Output.Loki
use fluentbit_operator.Plugins.Output.Syslog
use fluentbit_operator.Plugins.Output.DataDog

header_map-IsSane :
    {kvs : Kvs} (m : GoMap String) → IsSane kvs → IsSane (insert_string_map (some header) m kvs)
header_map-IsSane m h =
    insert_string_map-IsAligned header m
      (All-of (MakesWord IsWord header) (λ k v. refl) (map entry_key m)) h

-- The options that a Kafka output hands on to librdkafka have names without spaces or line ends.
abbrev pub HasPlainNames : List String → Type 0
HasPlainNames ks = All (λ k. all_plain k ≡ true) ks

makes_words : (ks : List String) → HasPlainNames ks → All (MakesWord IsWord rdkafka) ks
makes_words [] h = tt
makes_words (k ∷ ks) (p, h) = ((λ v. IsWord-append "rdkafka." k refl p), makes_words ks h)

rdkafka_map-IsSane :
    {kvs : Kvs} (m : GoMap String)
    → HasPlainNames (map entry_key m)
    → IsSane kvs
    → IsSane (insert_string_map (some rdkafka) m kvs)
rdkafka_map-IsSane m p h = insert_string_map-IsAligned rdkafka m (makes_words (map entry_key m) p) h

abbrev pub HasPlainOptions : OutputPlugin → Type 0
HasPlainOptions (kafka k) = HasPlainNames (map entry_key k.rdkafka)
HasPlainOptions _ = Unit

ruleset rules = (output_rules, header_map-IsSane, rdkafka_map-IsSane)

-- What an output plugin returns, if not nil, pairs off keys and values, and its keys are words, where
-- the names of its librdkafka options, if it is Kafka, have neither spaces nor line ends.
pub output_params-IsSane :
    (sl : SecretLoader) (p : OutputPlugin) → HasPlainOptions p → Ensures IsSaneOption (params sl p)
unfolding params Elasticsearch.params File.params Forward.params Http.params Kafka.params
    Null.params Stdout.params Tcp.params Loki.params Syslog.params DataDog.params
output_params-IsSane sl (elasticsearch p) h = search rules depth 60
output_params-IsSane sl (file p) h = search rules depth 40
output_params-IsSane sl (forward p) h = search rules depth 40
output_params-IsSane sl (http p) h = search rules depth 40
output_params-IsSane sl (kafka p) h = search rules depth 40
output_params-IsSane sl (null p) h = tt
output_params-IsSane sl (stdout p) h = search rules depth 40
output_params-IsSane sl (tcp p) h = search rules depth 40
output_params-IsSane sl (loki p) h = search rules depth 40
output_params-IsSane sl (syslog p) h = search rules depth 40
output_params-IsSane sl (datadog p) h = search rules depth 40

any_rdkafka_map :
    {kvs : Kvs} (m : GoMap String)
    → IsAligned AnyKey kvs
    → IsAligned AnyKey (insert_string_map (some rdkafka) m kvs)
any_rdkafka_map m h =
    insert_string_map-IsAligned rdkafka m
      (All-of (MakesWord AnyKey rdkafka) (λ k v. tt) (map entry_key m)) h

-- What an output plugin returns, if not nil, pairs off keys and values.
pub output_params-IsAligned :
    (sl : SecretLoader) (p : OutputPlugin) → Ensures (IsAlignedOption AnyKey) (params sl p)
unfolding params Kafka.params
output_params-IsAligned sl (kafka p) = search (step_rules, any_rdkafka_map, tt) depth 40
output_params-IsAligned sl (elasticsearch p) =
    IsAlignedOption-any IsWord _ (output_params-IsSane sl (elasticsearch p) tt)
output_params-IsAligned sl (file p) =
    IsAlignedOption-any IsWord _ (output_params-IsSane sl (file p) tt)
output_params-IsAligned sl (forward p) =
    IsAlignedOption-any IsWord _ (output_params-IsSane sl (forward p) tt)
output_params-IsAligned sl (http p) =
    IsAlignedOption-any IsWord _ (output_params-IsSane sl (http p) tt)
output_params-IsAligned sl (null p) =
    IsAlignedOption-any IsWord _ (output_params-IsSane sl (null p) tt)
output_params-IsAligned sl (stdout p) =
    IsAlignedOption-any IsWord _ (output_params-IsSane sl (stdout p) tt)
output_params-IsAligned sl (tcp p) =
    IsAlignedOption-any IsWord _ (output_params-IsSane sl (tcp p) tt)
output_params-IsAligned sl (loki p) =
    IsAlignedOption-any IsWord _ (output_params-IsSane sl (loki p) tt)
output_params-IsAligned sl (syslog p) =
    IsAlignedOption-any IsWord _ (output_params-IsSane sl (syslog p) tt)
output_params-IsAligned sl (datadog p) =
    IsAlignedOption-any IsWord _ (output_params-IsSane sl (datadog p) tt)
