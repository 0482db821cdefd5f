-- ===== src/Tests/Manager.antt =====
-- Instances of the theorems on the manager.
use fluentbit_operator.Prelude.{◌≡◌, refl, true, false, ◌&&◌, ◌||◌, ◌==◌, some, List, [], ◌∷◌}
use fluentbit_operator.Result.{ok}
use fluentbit_operator.Operator.Access.{Request, allows, is_get_pods}
use fluentbit_operator.Controllers.FluentBit.{access_objects}
use fluentbit_operator.Manager.{Flags, options, settings}
use fluentbit_operator.Manager.Access.{objects_of, access_least}
use fluentbit_operator.Manager.Namespaces.{join, watched, join-watched}
use fluentbit_operator.Controllers.Setup.{
  Reconciler, config_reconciler, fluent_bit_reconciler, owner_name,
}
use fluentbit_operator.Manager.Start.{Runtime, main, reconcilers, Registers, main-registered}
use fluentbit_operator.Tests.FluentBit.{client, dying}

abbrev flags : Flags
flags = record {
  watch_namespaces = "logging,metrics";
  metrics_addr = ":8080";
  enable_leader_election = false;
  use_compression = true;
}

abbrev request : Request
request = record { verb = "get"; api_group = ""; resource = "pods"; namespace = "metrics" }

join-watched_example : join (watched (options flags).scope) ≡ "logging,metrics"
join-watched_example = join-watched flags

access_least_example :
    allows dying.name dying.namespace request (
      objects_of (
        access_objects client
          (settings flags (ok [])).container_log_real_path
          (settings flags (ok [])).namespaced
          dying))
    ≡ (is_get_pods request
        && (flags.watch_namespaces == "" || request.namespace == dying.namespace))
access_least_example = access_least client flags (ok []) dying request

-- The pods of another namespace are out of reach.
out_of_reach :
    is_get_pods request && (flags.watch_namespaces == "" || request.namespace == dying.namespace)
    ≡ false
unfolding is_get_pods
out_of_reach = refl

abbrev manager_runtime : Runtime (List Reconciler)
manager_runtime = record {
  registry = record {
    index_field = λ type key f w. (w, ok tt);
    complete = λ g r w. (r ∷ w, ok tt);
  };
  new_manager = λ o w. (w, ok tt);
  start = λ w. (w, ok tt);
}

manager_runtime-Registers : Registers manager_runtime (λ w. w)
manager_runtime-Registers = record {
  made = λ o w. refl;
  indexed = λ type key f w. refl;
  completed = λ g r w e. refl;
}

main-registered_example :
    (v : List Reconciler) × (manager_runtime.start v
      ≡ ((main manager_runtime flags (ok []) []).0, ok tt))
    × (v ≡ fluent_bit_reconciler "/containers" true ∷ config_reconciler true ∷ [])
unfolding reconcilers main
main-registered_example =
    main-registered manager_runtime (λ w. w) manager_runtime-Registers flags (ok []) [] refl

owner_name_test :
    (owner_name "FluentBit" (
        some (record {
          api_version = "logging.kubesphere.io/v1alpha2";
          kind = "FluentBit";
          name = "fluent-bit";
        }))
      ≡ "fluent-bit" ∷ [])
    × (owner_name "FluentBit"
          (some (record { api_version = "apps/v1"; kind = "DaemonSet"; name = "fluent-bit" }))
        ≡ [])
unfolding owner_name
owner_name_test = (refl, refl)
