-- ===== src/Plugins/Output.antt =====
-- api/fluentbitoperator/v1alpha2/plugins/output: the implementations of the interface `Plugin` of
-- plugins/interface.go, one constructor each, with its two methods.
pub mod Elasticsearch
pub mod File
pub mod Forward
pub mod Http
pub mod Kafka
pub mod Null
pub mod Stdout
pub mod Tcp
pub mod Loki
pub mod Syslog
pub mod DataDog
use fluentbit_operator.Prelude.{String, Option}
use fluentbit_operator.Result.{Result}
use fluentbit_operator.Params.{Kvs}
use fluentbit_operator.Plugins.{SecretLoader}

pub data OutputPlugin : Type 0 where
  elasticsearch : Elasticsearch.Elasticsearch → OutputPlugin
  file : File.File → OutputPlugin
  forward : Forward.Forward → OutputPlugin
  http : Http.Http → OutputPlugin
  kafka : Kafka.Kafka → OutputPlugin
  null : Null.Null → OutputPlugin
  stdout : Stdout.Stdout → OutputPlugin
  tcp : Tcp.Tcp → OutputPlugin
  loki : Loki.Loki → OutputPlugin
  syslog : Syslog.Syslog → OutputPlugin
  datadog : DataDog.DataDog → OutputPlugin

-- `Name`
unfoldable pub name : OutputPlugin → String
name (elasticsearch p) = Elasticsearch.name
name (file p) = File.name
name (forward p) = Forward.name
name (http p) = Http.name
name (kafka p) = Kafka.name
name (null p) = Null.name
name (stdout p) = Stdout.name
name (tcp p) = Tcp.name
name (loki p) = Loki.name
name (syslog p) = Syslog.name
name (datadog p) = DataDog.name

-- `Params`
unfoldable pub params : SecretLoader → OutputPlugin → Result (Option Kvs)
params sl (elasticsearch p) = Elasticsearch.params sl p
params sl (file p) = File.params sl p
params sl (forward p) = Forward.params sl p
params sl (http p) = Http.params sl p
params sl (kafka p) = Kafka.params sl p
params sl (null p) = Null.params sl p
params sl (stdout p) = Stdout.params sl p
params sl (tcp p) = Tcp.params sl p
params sl (loki p) = Loki.params sl p
params sl (syslog p) = Syslog.params sl p
params sl (datadog p) = DataDog.params sl p
