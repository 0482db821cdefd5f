-- ===== src/Controllers/FluentBit.antt =====
-- controllers/fluentbit_controller.go and fluentbit_controller_finalizer.go: `Reconcile` guards a FluentBit
-- by a finalizer, and runs its pods by a DaemonSet; for a FluentBit that is being deleted it deletes what it
-- made, and then removes the finalizer.
-- The operations of the API client, `SetControllerReference` and `CreateOrPatch` are a parameter, `Client`.
-- `CreateOrPatch` is called with what `mutate` leaves of the DaemonSet, whatever it finds there. The result
-- of `Reconcile` is whether the request is to be queued again.
pub mod Laws
pub mod Deletion
pub mod Deployment
pub mod Kept
pub mod Guard
use Prim.Native.String
use fluentbit_operator.Prelude.{String, ◌==◌, Bool, true, false, not, some, if◌then◌else◌}
use fluentbit_operator.Result.{Error, Result, ok, err, not_found, other}
use fluentbit_operator.FluentBit.{
  FluentBit, is_being_deleted, has_finalizer, add_finalizer, remove_finalizer,
  fluent_bit_finalizer_name,
}
use fluentbit_operator.Operator.Rbac.{
  Object, ServiceAccount, cluster_role, scoped_role, service_account, cluster_role_binding,
  scoped_role_binding, make_rbac_objects, make_scoped_rbac_objects,
}
use fluentbit_operator.Operator.DaemonSet.{DaemonSet, make_daemon_set}
use fluentbit_operator.Run.{Run, continue, ◌>>=◌, ◌>>◌, return, read}
use fluentbit_operator.Controllers.Errors.{ignore_already_exists, ignore_not_found, message}

-- A DaemonSet, and the name of the FluentBit that controls it.
pub record Controlled (Resources Toleration Affinity : Type 0) : Type 0 where
  pub daemon_set : DaemonSet Resources Toleration Affinity
  pub controller : String

pub record Client (World Resources Toleration Affinity : Type 0) : Type 0 where
  pub get_fluent_bit : World → String → String → Result (FluentBit Resources Toleration Affinity)
  pub update : FluentBit Resources Toleration Affinity → Run World (Unit {0})
  pub get_secret : World → String → String → Result (Unit {0})
  pub create : Object → Run World (Unit {0})
  pub get_service_account : World → String → String → Result (Unit {0})
  pub delete_service_account : String → String → Run World (Unit {0})
  pub get_daemon_set : World → String → String → Result (Unit {0})
  pub delete_daemon_set : String → String → Run World (Unit {0})
  pub set_controller_reference : FluentBit Resources Toleration Affinity → Result (Unit {0})
  pub create_or_patch :
      String → String → Result (Controlled Resources Toleration Affinity) → Run World (Unit {0})

-- `fmt.Errorf(prefix + "%v", err)`
unfoldable pub wrap : {World : Type 0} → String → World × Result Bool → World × Result Bool
unfolding message
wrap prefix (w, ok b) = (w, ok b)
wrap prefix (w, err e) = (w, err (other (String.◌++◌ prefix (message e))))

module _ {World Resources Toleration Affinity : Type 0}
    (client : Client World Resources Toleration Affinity) where
  -- One half of `delete`: `Get`, and `Delete` of what is there.
  unfoldable pub delete_found : Result (Unit {0}) → Run World (Unit {0}) → Run World (Unit {0})
  unfolding ignore_not_found
  delete_found (ok _) delete w = ignore_not_found (delete w)
  delete_found (err (not_found _)) delete w = (w, ok tt)
  delete_found (err e) delete w = (w, err e)

  -- The two halves of `delete`
  unfoldable pub delete_account : FluentBit Resources Toleration Affinity → Run World (Unit {0})
  unfolding delete_found
  delete_account fb w =
      delete_found (client.get_service_account w fb.namespace fb.name)
        (client.delete_service_account fb.namespace fb.name) w

  unfoldable pub delete_pods : FluentBit Resources Toleration Affinity → Run World (Unit {0})
  unfolding delete_found
  delete_pods fb w =
      delete_found (client.get_daemon_set w fb.namespace fb.name)
        (client.delete_daemon_set fb.namespace fb.name) w

  -- `delete`
  unfoldable pub delete : FluentBit Resources Toleration Affinity → Run World (Unit {0})
  unfolding delete_account delete_pods continue
  delete fb = do delete_account fb; delete_pods fb

  -- `addFinalizer`
  unfoldable pub put_finalizer : FluentBit Resources Toleration Affinity → Run World (Unit {0})
  unfolding add_finalizer
  put_finalizer fb = client.update (add_finalizer fluent_bit_finalizer_name fb)

  -- `handleFinalizer`
  unfoldable pub handle_finalizer : FluentBit Resources Toleration Affinity → Run World (Unit {0})
  unfolding has_finalizer delete remove_finalizer continue
  handle_finalizer fb =
      if not (has_finalizer fluent_bit_finalizer_name fb)
      then return tt
      else do delete fb; client.update (remove_finalizer fluent_bit_finalizer_name fb)

  module _ (log_path_option : String) (namespaced : Bool) where
    -- `getContainerLogPath`
    unfoldable pub get_container_log_path : FluentBit Resources Toleration Affinity → String
    get_container_log_path fb =
        if not (fb.container_log_real_path == "")
        then fb.container_log_real_path
        else if not (log_path_option == "")
        then log_path_option
        else "/var/lib/docker/containers"

    -- The three objects that `Reconcile` creates, the service account with its controller.
    unfoldable pub access_objects :
        FluentBit Resources Toleration Affinity → Object × Object × Object
    unfolding make_rbac_objects make_scoped_rbac_objects
    access_objects fb =
        if namespaced
        then (let (r, sa, b) = make_scoped_rbac_objects fb.name fb.namespace in
            (
              scoped_role r,
              service_account (record sa { controller = some fb.name }),
              scoped_role_binding b,
            ))
        else (let (r, sa, b) = make_rbac_objects fb.name fb.namespace in
            (
              cluster_role r,
              service_account (record sa { controller = some fb.name }),
              cluster_role_binding b,
            ))

    unfoldable pub create_unless_there : Object → Run World (Unit {0})
    unfolding ignore_already_exists
    create_unless_there object w = ignore_already_exists (client.create object w)

    -- What `mutate` makes of the DaemonSet.
    unfoldable pub expected :
        FluentBit Resources Toleration Affinity → Controlled Resources Toleration Affinity
    unfolding make_daemon_set get_container_log_path
    expected fb = record {
      daemon_set = make_daemon_set fb (get_container_log_path fb);
      controller = fb.name;
    }

    unfoldable pub mutate :
        FluentBit Resources Toleration Affinity → Result (Controlled Resources Toleration Affinity)
    unfolding expected
    mutate fb = elim (client.set_controller_reference fb) [
      | ok _ ↦ ok (expected fb)
      | err e ↦ err e
    ]

    -- `Reconcile` from the RBAC resources on.
    unfoldable pub install : FluentBit Resources Toleration Affinity → Run World Bool
    unfolding access_objects create_unless_there mutate continue
    install fb = do
      let (role_object, account_object, binding_object) = access_objects fb
      read (λ w. client.set_controller_reference fb)
      create_unless_there role_object
      create_unless_there account_object
      create_unless_there binding_object
      read (λ w. client.set_controller_reference fb)
      client.create_or_patch fb.namespace fb.name (mutate fb)
      return false

    -- `Reconcile` from the check of the Secret on.
    unfoldable pub deploy :
        FluentBit Resources Toleration Affinity → Result (Unit {0}) → Run World Bool
    unfolding install
    deploy fb (ok _) w = install fb w
    deploy fb (err (not_found _)) w = (w, ok true)
    deploy fb (err e) w = (w, err e)

    -- `Reconcile` from the first `Get` on.
    unfoldable pub reconcile_found :
        Result (FluentBit Resources Toleration Affinity) → Run World Bool
    unfolding is_being_deleted has_finalizer handle_finalizer put_finalizer deploy wrap continue
    reconcile_found (err (not_found _)) w = (w, ok false)
    reconcile_found (err e) w = (w, err e)
    reconcile_found (ok fb) w =
        if is_being_deleted fb
        then wrap "error when handling finalizer: " ((handle_finalizer fb >> return false) w)
        else if not (has_finalizer fluent_bit_finalizer_name fb)
        then wrap "error when adding finalizer: " ((put_finalizer fb >> return false) w)
        else deploy fb (client.get_secret w fb.namespace fb.fluent_bit_config_name) w

    -- `Reconcile`
    unfoldable pub reconcile : String → String → Run World Bool
    unfolding reconcile_found
    reconcile namespace name w = reconcile_found (client.get_fluent_bit w namespace name) w
