-- ===== src/Plugins/Filter/Kubernetes.antt =====
-- api/fluentbitoperator/v1alpha2/plugins/filter/kubernetes_types.go
use fluentbit_operator.Prelude.{String, Bool, ℤ, Option, some, ◌▸◌, show_bool, show_int}
use fluentbit_operator.Result.{Result, ok}
use fluentbit_operator.Params.{Kvs, new_kvs, insert_text, insert_some}
use fluentbit_operator.Plugins.{SecretLoader}

pub record Kubernetes : Type 0 where
  pub buffer_size : String
  pub kube_url : String
  pub kube_ca_file : String
  pub kube_ca_path : String
  pub kube_token_file : String
  pub kube_tag_prefix : String
  pub merge_log : Option Bool
  pub merge_log_key : String
  pub merge_log_trim : Option Bool
  pub merge_parser : String
  pub keep_log : Option Bool
  pub tls_debug : Option ℤ
  pub tls_verify : Option Bool
  pub use_journal : Option Bool
  pub regex_parser : String
  pub k8s_logging_parser : Option Bool
  pub k8s_logging_exclude : Option Bool
  pub labels : Option Bool
  pub annotations : Option Bool
  pub kube_meta_preload_cache_dir : String
  pub dummy_meta : Option Bool

-- `Name`
abbrev pub name : String
name = "kubernetes"

-- `Params`
unfoldable pub params : SecretLoader → Kubernetes → Result (Option Kvs)
params _ k = ok (
    some (
      new_kvs
      ▸ insert_text "Buffer_Size" k.buffer_size
      ▸ insert_text "Kube_URL" k.kube_url
      ▸ insert_text "Kube_CA_File" k.kube_ca_file
      ▸ insert_text "Kube_CA_Path" k.kube_ca_path
      ▸ insert_text "Kube_Token_File" k.kube_token_file
      ▸ insert_text "Kube_Tag_Prefix" k.kube_tag_prefix
      ▸ insert_some show_bool "Merge_Log" k.merge_log
      ▸ insert_text "Merge_Log_Key" k.merge_log_key
      ▸ insert_some show_bool "Merge_Log_Trim" k.merge_log_trim
      ▸ insert_text "Merge_Parser" k.merge_parser
      ▸ insert_some show_bool "Keep_Log" k.keep_log
      ▸ insert_some show_int "tls.debug" k.tls_debug
      ▸ insert_some show_bool "tls.verify" k.tls_verify
      ▸ insert_some show_bool "Use_Journal" k.use_journal
      ▸ insert_text "Regex_Parser" k.regex_parser
      ▸ insert_some show_bool "K8S-Logging.Parser" k.k8s_logging_parser
      ▸ insert_some show_bool "K8S-Logging.Exclude" k.k8s_logging_exclude
      ▸ insert_some show_bool "Labels" k.labels
      ▸ insert_some show_bool "Annotations" k.annotations
      ▸ insert_text "Kube_meta_preload_cache_dir" k.kube_meta_preload_cache_dir
      ▸ insert_some show_bool "Dummy_Meta" k.dummy_meta))
