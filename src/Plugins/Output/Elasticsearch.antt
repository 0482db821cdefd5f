-- ===== src/Plugins/Output/Elasticsearch.antt =====
-- api/fluentbitoperator/v1alpha2/plugins/output/elasticsearch_types.go
use fluentbit_operator.Prelude.{String, Bool, ℤ, Option, some, ◌▸◌, show_bool, show_int}
use fluentbit_operator.Result.{Result, ok, ◌>>=◌}
use fluentbit_operator.Params.{Kvs, new_kvs, insert_text, insert_some}
use fluentbit_operator.Plugins.{Secret, SecretLoader, insert_secret}
use fluentbit_operator.Plugins.Tls.{Tls, merge_tls}

pub record Elasticsearch : Type 0 where
  pub host : String
  pub port : Option ℤ
  pub path : String
  pub buffer_size : String
  pub pipeline : String
  pub aws_auth : String
  pub aws_region : String
  pub aws_sts_endpoint : String
  pub aws_role_arn : String
  pub aws_external_id : String
  pub cloud_id : String
  pub cloud_auth : String
  pub http_user : Option Secret
  pub http_passwd : Option Secret
  pub index : String
  pub type : String
  pub logstash_format : Option Bool
  pub logstash_prefix : String
  pub logstash_date_format : String
  pub time_key : String
  pub time_key_format : String
  pub include_tag_key : Option Bool
  pub tag_key : String
  pub generate_id : Option Bool
  pub id_key : String
  pub replace_dots : Option Bool
  pub trace_output : Option Bool
  pub trace_error : Option Bool
  pub current_time_index : Option Bool
  pub logstash_prefix_key : String
  pub suppress_type_name : String
  pub tls : Option Tls

-- `Name`
abbrev pub name : String
name = "es"

-- `Params`
unfoldable pub params : SecretLoader → Elasticsearch → Result (Option Kvs)
params sl es = do
  kvs ← insert_secret sl "HTTP_User" es.http_user (
      new_kvs
      ▸ insert_text "Host" es.host
      ▸ insert_some show_int "Port" es.port
      ▸ insert_text "Path" es.path
      ▸ insert_text "Buffer_Size" es.buffer_size
      ▸ insert_text "Pipeline" es.pipeline
      ▸ insert_text "AWS_Auth" es.aws_auth
      ▸ insert_text "AWS_Region" es.aws_region
      ▸ insert_text "AWS_STS_Endpoint" es.aws_sts_endpoint
      ▸ insert_text "AWS_Role_ARN" es.aws_role_arn
      ▸ insert_text "Cloud_ID" es.cloud_id
      ▸ insert_text "Cloud_Auth" es.cloud_auth
      ▸ insert_text "AWS_External_ID" es.aws_external_id)
  kvs ← insert_secret sl "HTTP_Passwd" es.http_passwd kvs
  kvs ← merge_tls sl es.tls (
      kvs
      ▸ insert_text "Host" es.index
      ▸ insert_text "Host" es.type
      ▸ insert_some show_bool "Logstash_Format" es.logstash_format
      ▸ insert_text "Logstash_Prefix" es.logstash_prefix
      ▸ insert_text "Logstash_DateFormat" es.logstash_date_format
      ▸ insert_text "Time_Key" es.time_key
      ▸ insert_text "Time_Key_Format" es.time_key_format
      ▸ insert_some show_bool "Include_Tag_Key" es.include_tag_key
      ▸ insert_text "Tag_Key" es.tag_key
      ▸ insert_some show_bool "Generate_ID" es.generate_id
      ▸ insert_text "ID_KEY" es.id_key
      ▸ insert_some show_bool "Replace_Dots" es.replace_dots
      ▸ insert_some show_bool "Trace_Output" es.trace_output
      ▸ insert_some show_bool "Trace_Error" es.trace_error
      ▸ insert_some show_bool "Current_Time_Index" es.current_time_index
      ▸ insert_text "Logstash_Prefix_Key" es.logstash_prefix_key
      ▸ insert_text "Suppress_Type_Name" es.suppress_type_name)
  ok (some kvs)
