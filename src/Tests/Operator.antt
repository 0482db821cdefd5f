-- ===== src/Tests/Operator.antt =====
-- An instance of the theorem on the DaemonSet.
use fluentbit_operator.Prelude.{◌≡◌, none, [], ◌∷◌}
use fluentbit_operator.Operator.DaemonSet.{make_daemon_set}
use fluentbit_operator.FluentBit.{FluentBit, host_path}
use fluentbit_operator.Operator.Volumes.{
  volume_names, mount_names, expected_names, make_daemon_set-names,
}

abbrev fluent_bit : FluentBit Unit Unit Unit
fluent_bit = record {
  name = "fluent-bit";
  namespace = "fluent";
  labels = ("app", "fluent-bit") ∷ [];
  deletion_timestamp = none;
  finalizers = [];
  image = "kubesphere/fluent-bit:v1.8.3";
  args = [];
  image_pull_policy = "";
  image_pull_secrets = [];
  position_db = host_path "/var/lib/fluent-bit/";
  container_log_real_path = "";
  resources = tt;
  node_selector = [];
  affinity = none;
  tolerations = [];
  fluent_bit_config_name = "fluent-bit-config";
  secrets = "es-credentials" ∷ [];
  runtime_class_name = "";
  priority_class_name = "";
}

make_daemon_set-names_example :
    (volume_names (make_daemon_set fluent_bit "/containers").template.volumes
      ≡ expected_names (host_path "/var/lib/fluent-bit/") ("es-credentials" ∷ []))
    × (mount_names (make_daemon_set fluent_bit "/containers").template.container.volume_mounts
        ≡ expected_names (host_path "/var/lib/fluent-bit/") ("es-credentials" ∷ []))
make_daemon_set-names_example = make_daemon_set-names fluent_bit "/containers"
