-- ===== src/Operator/Volumes.antt =====
-- Volumes and mounts of the pod.
use mathlib.Core.List
use mathlib.Core.List.{map-append}
use fluentbit_operator.Prelude.{◌≡◌, refl, sym, ap, ◌∙◌, String, List, [], ◌∷◌, map, if◌then◌else◌}
use fluentbit_operator.FluentBit.{
  FluentBit, VolumeSource, no_source, empty_dir, host_path, secret_source, other_source,
}
use fluentbit_operator.Operator.DaemonSet.{
  Volume, VolumeMount, make_daemon_set, is_set, fixed_volumes, fixed_mounts, add_secret_volumes,
  add_secret_mounts, add_position_volume, add_position_mount,
}

abbrev pub volume_names : List Volume → List String
volume_names vs = map (λ v. v.name) vs

abbrev pub mount_names : List VolumeMount → List String
mount_names ms = map (λ m. m.name) ms

-- The names of the volumes that a pod needs.
unfoldable pub expected_names : VolumeSource → List String → List String
expected_names source secrets =
    List.◌++◌ ("varlibcontainers" ∷ "config" ∷ "varlogs" ∷ "systemd" ∷ "scratch" ∷ [])
      (List.◌++◌ (if is_set source then "positions" ∷ [] else []) secrets)

secret_volumes-names :
    (ss : List String) (vs : List Volume)
    → volume_names (add_secret_volumes ss vs) ≡ List.◌++◌ (volume_names vs) ss
unfolding add_secret_volumes
secret_volumes-names [] vs = sym (List.append-nil _)
secret_volumes-names (s ∷ ss) vs =
    secret_volumes-names ss _
    ∙ ap (λ l. List.◌++◌ l ss) (List.map-append _ vs _)
    ∙ List.append_assoc (volume_names vs) (s ∷ []) ss

secret_mounts-names :
    (ss : List String) (ms : List VolumeMount)
    → mount_names (add_secret_mounts ss ms) ≡ List.◌++◌ (mount_names ms) ss
unfolding add_secret_mounts
secret_mounts-names [] ms = sym (List.append-nil _)
secret_mounts-names (s ∷ ss) ms =
    secret_mounts-names ss _
    ∙ ap (λ l. List.◌++◌ l ss) (List.map-append _ ms _)
    ∙ List.append_assoc (mount_names ms) (s ∷ []) ss

position-names :
    (source : VolumeSource) (log_path config_name : String) (ss : List String)
    → (List.◌++◌ (volume_names (add_position_volume source (fixed_volumes log_path config_name))) ss
        ≡ expected_names source ss)
      × (List.◌++◌ (mount_names (add_position_mount source (fixed_mounts log_path))) ss
          ≡ expected_names source ss)
unfolding add_position_volume add_position_mount fixed_volumes fixed_mounts expected_names
position-names no_source log_path config_name ss = (refl, refl)
position-names empty_dir log_path config_name ss = (refl, refl)
position-names (host_path p) log_path config_name ss = (refl, refl)
position-names (secret_source p) log_path config_name ss = (refl, refl)
position-names (other_source p) log_path config_name ss = (refl, refl)

-- The volumes of the pod are the five fixed ones, the position database if it is set, and the Secrets,
-- and the container mounts volumes of exactly these names, in this order.
pub make_daemon_set-names :
    {Resources Toleration Affinity : Type 0} (fb : FluentBit Resources Toleration Affinity)
    (log_path : String)
    → (volume_names (make_daemon_set fb log_path).template.volumes
        ≡ expected_names fb.position_db fb.secrets)
      × (mount_names (make_daemon_set fb log_path).template.container.volume_mounts
          ≡ expected_names fb.position_db fb.secrets)
unfolding make_daemon_set
make_daemon_set-names fb log_path =
    let p = position-names fb.position_db log_path fb.fluent_bit_config_name fb.secrets in
    (secret_volumes-names fb.secrets _ ∙ p.0, secret_mounts-names fb.secrets _ ∙ p.1)
