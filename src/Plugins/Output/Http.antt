-- ===== src/Plugins/Output/Http.antt =====
-- api/fluentbitoperator/v1alpha2/plugins/output/http_types.go
use Prim.Native.String.{◌++◌}
use fluentbit_operator.Prelude.{String, Bool, ℤ, Option, some, GoMap, ◌▸◌, show_bool, show_int}
use fluentbit_operator.Result.{Result, ok, ◌>>=◌}
use fluentbit_operator.Params.{Kvs, new_kvs, insert_text, insert_some, insert_string_map, Transform}
use fluentbit_operator.Plugins.{Secret, SecretLoader, insert_secret}
use fluentbit_operator.Plugins.Tls.{Tls, merge_tls}

pub record Http : Type 0 where
  pub host : String
  pub http_user : Option Secret
  pub http_passwd : Option Secret
  pub port : Option ℤ
  pub proxy : String
  pub uri : String
  pub compress : String
  pub format : String
  pub allow_duplicated_headers : Option Bool
  pub header_tag : String
  pub headers : GoMap String
  pub json_date_key : String
  pub json_date_format : String
  pub gelf_timestamp_key : String
  pub gelf_host_key : String
  pub gelf_short_messge_key : String
  pub gelf_full_message_key : String
  pub gelf_level_key : String
  pub tls : Option Tls

-- `Name`
abbrev pub name : String
name = "http"

-- the closure that `InsertStringMap` is called with
abbrev pub header : Transform
header k v = ("header", " " ++ k ++ "    " ++ v)

-- `Params`
unfoldable pub params : SecretLoader → Http → Result (Option Kvs)
params sl h = do
  kvs ← insert_secret sl "http_User" h.http_user (new_kvs ▸ insert_text "host" h.host)
  kvs ← insert_secret sl "http_Passwd" h.http_passwd kvs
  kvs ← merge_tls sl h.tls (
      kvs
      ▸ insert_some show_int "port" h.port
      ▸ insert_text "Proxy" h.proxy
      ▸ insert_text "uri" h.uri
      ▸ insert_text "compress" h.compress
      ▸ insert_text "format" h.format
      ▸ insert_some show_bool "allow_duplicated_headers" h.allow_duplicated_headers
      ▸ insert_text "header_tag" h.header_tag
      ▸ insert_string_map (some header) h.headers
      ▸ insert_text "json_date_key" h.json_date_key
      ▸ insert_text "json_date_format" h.json_date_format
      ▸ insert_text "gelf_timestamp_key" h.gelf_timestamp_key
      ▸ insert_text "gelf_host_key" h.gelf_host_key
      ▸ insert_text "gelf_short_messge_key" h.gelf_short_messge_key
      ▸ insert_text "gelf_full_message_key" h.gelf_full_message_key
      ▸ insert_text "gelf_level_key" h.gelf_level_key)
  ok (some kvs)
