-- ===== src/Operator/DaemonSet.antt =====
-- `MakeDaemonSet`. The types of Kubernetes that it only passes on (resources, tolerations, affinity) are
-- parameters; a pull policy and a reference to a Secret are the names that they hold.
use Prim.Native.String.{◌++◌}
use mathlib.Core.List
use fluentbit_operator.FluentBit.{
  FluentBit, VolumeSource, no_source, empty_dir, host_path, secret_source, other_source,
}
use fluentbit_operator.Prelude.{
  String, ◌==◌, Bool, true, false, ℕ, Option, none, some, List, [], ◌∷◌, GoMap, if◌then◌else◌,
}

pub record Volume : Type 0 where
  pub name : String
  pub source : VolumeSource

pub record VolumeMount : Type 0 where
  pub name : String
  pub read_only : Bool
  pub mount_path : String

pub record Container (Resources : Type 0) : Type 0 where
  pub name : String
  pub image : String
  pub args : List String
  pub image_pull_policy : String
  -- name and number of the TCP port
  pub port : String × ℕ
  -- an environment variable, and the field of the pod that it takes its value from
  pub env : String × String
  pub volume_mounts : List VolumeMount
  pub resources : Resources

pub record PodSpec (Resources Toleration Affinity : Type 0) : Type 0 where
  pub service_account_name : String
  pub image_pull_secrets : List String
  pub volumes : List Volume
  pub container : Container Resources
  pub node_selector : GoMap String
  pub tolerations : List Toleration
  pub affinity : Option Affinity
  pub runtime_class_name : Option String
  pub priority_class_name : String

-- `appsv1.DaemonSet`, whose pod template has the same name, namespace and labels
pub record DaemonSet (Resources Toleration Affinity : Type 0) : Type 0 where
  pub name : String
  pub namespace : String
  pub labels : GoMap String
  pub match_labels : GoMap String
  pub template : PodSpec Resources Toleration Affinity

unfoldable pub fixed_volumes : String → String → List Volume
fixed_volumes log_path config_name =
    (record { name = "varlibcontainers"; source = host_path log_path })
    ∷ (record { name = "config"; source = secret_source config_name })
    ∷ (record { name = "varlogs"; source = host_path "/var/log" })
    ∷ (record { name = "systemd"; source = host_path "/var/log/journal" })
    ∷ (record { name = "scratch"; source = empty_dir })
    ∷ []

unfoldable pub fixed_mounts : String → List VolumeMount
fixed_mounts log_path =
    (record { name = "varlibcontainers"; read_only = true; mount_path = log_path })
    ∷ (record { name = "config"; read_only = true; mount_path = "/fluent-bit/config" })
    ∷ (record { name = "varlogs"; read_only = true; mount_path = "/var/log/" })
    ∷ (record { name = "systemd"; read_only = true; mount_path = "/var/log/journal" })
    ∷ (record { name = "scratch"; read_only = false; mount_path = "/tmp/fluent-bit" })
    ∷ []

-- `if fb.Spec.PositionDB != (corev1.VolumeSource{}) { … }`, and its two appends
unfoldable pub is_set : VolumeSource → Bool
is_set no_source = false
is_set empty_dir = true
is_set (host_path p) = true
is_set (secret_source s) = true
is_set (other_source s) = true

unfoldable pub add_position_volume : VolumeSource → List Volume → List Volume
unfolding is_set
add_position_volume source vs =
    if is_set source
    then List.◌++◌ vs ((record { name = "positions"; source = source }) ∷ [])
    else vs

unfoldable pub add_position_mount : VolumeSource → List VolumeMount → List VolumeMount
unfolding is_set
add_position_mount source ms =
    if is_set source
    then List.◌++◌ ms
        ((record { name = "positions"; read_only = false; mount_path = "/fluent-bit/tail" }) ∷ [])
    else ms

-- The loop over the Secrets, with its two appends
unfoldable pub add_secret_volumes : List String → List Volume → List Volume
add_secret_volumes [] vs = vs
add_secret_volumes (s ∷ ss) vs =
    add_secret_volumes ss (List.◌++◌ vs ((record { name = s; source = secret_source s }) ∷ []))

unfoldable pub add_secret_mounts : List String → List VolumeMount → List VolumeMount
add_secret_mounts [] ms = ms
add_secret_mounts (s ∷ ss) ms = add_secret_mounts ss (
    List.◌++◌ ms
      ((record { name = s; read_only = true; mount_path = "/fluent-bit/secrets/" ++ s }) ∷ []))

-- `MakeDaemonSet`
unfoldable pub make_daemon_set :
    {Resources Toleration Affinity : Type 0}
    → FluentBit Resources Toleration Affinity
    → String
    → DaemonSet Resources Toleration Affinity
unfolding fixed_volumes fixed_mounts add_position_volume add_position_mount add_secret_volumes
    add_secret_mounts
make_daemon_set fb log_path = record {
  name = fb.name;
  namespace = fb.namespace;
  labels = fb.labels;
  match_labels = fb.labels;
  template = record {
    service_account_name = fb.name;
    image_pull_secrets = fb.image_pull_secrets;
    volumes =
        add_secret_volumes fb.secrets
          (add_position_volume fb.position_db (fixed_volumes log_path fb.fluent_bit_config_name));
    container = record {
      name = "fluent-bit";
      image = fb.image;
      args = fb.args;
      image_pull_policy = fb.image_pull_policy;
      port = ("metrics", 2020);
      env = ("NODE_NAME", "spec.nodeName");
      volume_mounts =
          add_secret_mounts fb.secrets (add_position_mount fb.position_db (fixed_mounts log_path));
      resources = fb.resources;
    };
    node_selector = fb.node_selector;
    tolerations = fb.tolerations;
    affinity = fb.affinity;
    runtime_class_name = if fb.runtime_class_name == "" then none else some fb.runtime_class_name;
    priority_class_name = if fb.priority_class_name == "" then "" else fb.priority_class_name;
  };
}
