-- ===== src/FluentBit.antt =====
-- api/fluentbitoperator/v1alpha2/fluentbit_types.go: the FluentBit resource and its finalizers. The types
-- of Kubernetes that the operator only passes on (resources, tolerations, affinity) are parameters; a pull
-- policy and a reference to a Secret are the names that they hold.
-- A method with a pointer receiver returns the new value.
pub mod Finalizers
use mathlib.Core.List
use fluentbit_operator.Prelude.{
  ℕ, zero, suc, String, Bool, true, false, Option, none, some, List, [], ◌∷◌, GoMap, not,
}
use fluentbit_operator.Utils.{contain_string, remove_string}

-- `corev1.VolumeSource`: the zero value, the three kinds that are built here, or another one.
pub data VolumeSource : Type 0 where
  no_source empty_dir : VolumeSource
  host_path secret_source other_source : String → VolumeSource

-- `FluentBit`: of its metadata name, namespace, labels, the time of deletion in seconds, where 0 is Go's
-- zero time, and the finalizers, and `FluentBitSpec`
pub record FluentBit (Resources Toleration Affinity : Type 0) : Type 0 where
  pub name : String
  pub namespace : String
  pub labels : GoMap String
  pub deletion_timestamp : Option ℕ
  pub finalizers : List String
  pub image : String
  pub args : List String
  pub image_pull_policy : String
  pub image_pull_secrets : List String
  pub position_db : VolumeSource
  pub container_log_real_path : String
  pub resources : Resources
  pub node_selector : GoMap String
  pub affinity : Option Affinity
  pub tolerations : List Toleration
  pub fluent_bit_config_name : String
  pub secrets : List String
  pub runtime_class_name : String
  pub priority_class_name : String

-- `Time.IsZero` of Kubernetes, which may be called on nil
unfoldable pub is_zero : Option ℕ → Bool
is_zero none = true
is_zero (some zero) = true
is_zero (some (suc n)) = false

-- `FluentBitFinalizerName`
abbrev pub fluent_bit_finalizer_name : String
fluent_bit_finalizer_name = "fluentbit.logging.kubesphere.io"

module _ {Resources Toleration Affinity : Type 0} where
  -- `IsBeingDeleted`
  unfoldable pub is_being_deleted : FluentBit Resources Toleration Affinity → Bool
  unfolding is_zero
  is_being_deleted fb = not (is_zero fb.deletion_timestamp)

  -- `HasFinalizer`
  unfoldable pub has_finalizer : String → FluentBit Resources Toleration Affinity → Bool
  unfolding contain_string
  has_finalizer finalizer_name fb = contain_string fb.finalizers finalizer_name

  -- `AddFinalizer`
  unfoldable pub add_finalizer :
      String → FluentBit Resources Toleration Affinity → FluentBit Resources Toleration Affinity
  add_finalizer finalizer_name fb = record fb {
    finalizers = List.◌++◌ fb.finalizers (finalizer_name ∷ []);
  }

  -- `RemoveFinalizer`
  unfoldable pub remove_finalizer :
      String → FluentBit Resources Toleration Affinity → FluentBit Resources Toleration Affinity
  unfolding remove_string
  remove_finalizer finalizer_name fb = record fb {
    finalizers = remove_string fb.finalizers finalizer_name;
  }
