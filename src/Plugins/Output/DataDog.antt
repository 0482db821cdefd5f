-- ===== src/Plugins/Output/DataDog.antt =====
-- api/fluentbitoperator/v1alpha2/plugins/output/datadog_types.go
use fluentbit_operator.Prelude.{String, Bool, Option, some, ◌▸◌, show_bool}
use fluentbit_operator.Result.{Result, ok}
use fluentbit_operator.Params.{Kvs, new_kvs, insert_text, insert_some}
use fluentbit_operator.Plugins.{SecretLoader}

pub record DataDog : Type 0 where
  pub host : String
  pub tls : Option Bool
  pub compress : String
  pub api_key : String
  pub proxy : String
  pub provider : String
  pub json_date_key : String
  pub include_tag_key : Option Bool
  pub tag_key : String
  pub service : String
  pub source : String
  pub tags : String
  pub message_key : String

-- `Name`
abbrev pub name : String
name = "datadog"

-- `Params`
unfoldable pub params : SecretLoader → DataDog → Result (Option Kvs)
params _ s = ok (
    some (
      new_kvs
      ▸ insert_text "Host" s.host
      ▸ insert_some show_bool "TLS" s.tls
      ▸ insert_text "compress" s.compress
      ▸ insert_text "apikey" s.api_key
      ▸ insert_text "proxy" s.proxy
      ▸ insert_text "provider" s.provider
      ▸ insert_text "json_date_key" s.json_date_key
      ▸ insert_some show_bool "include_tag_key" s.include_tag_key
      ▸ insert_text "tag_key" s.tag_key
      ▸ insert_text "dd_service" s.service
      ▸ insert_text "dd_source" s.source
      ▸ insert_text "dd_tags" s.tags
      ▸ insert_text "dd_message_key" s.message_key))
