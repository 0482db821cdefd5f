-- ===== src/Plugins/Output/Kafka.antt =====
-- api/fluentbitoperator/v1alpha2/plugins/output/kafka_types.go
use Prim.Native.String.{◌++◌}
use fluentbit_operator.Prelude.{String, Option, some, GoMap, ◌▸◌}
use fluentbit_operator.Result.{Result, ok}
use fluentbit_operator.Params.{Kvs, new_kvs, insert_text, insert_string_map, Transform}
use fluentbit_operator.Plugins.{SecretLoader}

pub record Kafka : Type 0 where
  pub format : String
  pub message_key : String
  pub message_key_field : String
  pub timestamp_key : String
  pub timestamp_format : String
  pub brokers : String
  pub topics : String
  pub topic_key : String
  pub rdkafka : GoMap String

-- `Name`
abbrev pub name : String
name = "kafka"

-- the closure that `InsertStringMap` is called with
abbrev pub rdkafka : Transform
rdkafka k v = ("rdkafka." ++ k, v)

-- `Params`
unfoldable pub params : SecretLoader → Kafka → Result (Option Kvs)
params _ k = ok (
    some (
      new_kvs
      ▸ insert_text "Format" k.format
      ▸ insert_text "Message_Key" k.message_key
      ▸ insert_text "Message_Key_Field" k.message_key_field
      ▸ insert_text "Timestamp_Key" k.timestamp_key
      ▸ insert_text "Timestamp_Format" k.timestamp_format
      ▸ insert_text "Brokers" k.brokers
      ▸ insert_text "Topics" k.topics
      ▸ insert_text "Topic_Key" k.topic_key
      ▸ insert_string_map (some rdkafka) k.rdkafka))
