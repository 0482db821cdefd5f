-- ===== src/Controllers/FluentBit/Kept.antt =====
-- What a Reconcile leaves alone, from what the calls of the client leave alone.
use fluentbit_operator.Prelude.{◌≡◌, refl, ap, ◌∙◌, String, Bool, Bool-cases, inl, inr}
use fluentbit_operator.Result.{Result, ok, err, not_found, already_exists, other, panicked}
use fluentbit_operator.FluentBit.{
  FluentBit, has_finalizer, remove_finalizer, fluent_bit_finalizer_name,
}
use fluentbit_operator.Operator.Rbac.{Object}
use fluentbit_operator.Run.Laws.{Keeps, Keeps-return, Keeps-then, keeping}
use fluentbit_operator.Controllers.Errors.{ignore_already_exists-world}
use fluentbit_operator.Controllers.FluentBit.{
  Client, Controlled, delete_account, delete_pods, delete, handle_finalizer, create_unless_there,
  install, deploy,
}
use fluentbit_operator.Controllers.FluentBit.Deletion.{delete_found-kept}

module _ {World Resources Toleration Affinity : Type 0}
    (client : Client World Resources Toleration Affinity) where
  module _ {X : Type 0} (sees : World → X) (fb : FluentBit Resources Toleration Affinity) where
    open fb use {namespace, name}

    pub delete-Keeps :
        Keeps sees (client.delete_service_account namespace name)
        → Keeps sees (client.delete_daemon_set namespace name)
        → Keeps sees (delete client fb)
    unfolding delete delete_account delete_pods
    delete-Keeps a d =
        Keeps-then sees (delete_account client fb) (λ _. delete_pods client fb)
          (record {
            keeps = λ w.
                delete_found-kept client sees (client.get_service_account w namespace name)
                  (client.delete_service_account namespace name) w (a.keeps w);
          })
          (λ u. record {
            keeps = λ w.
                delete_found-kept client sees (client.get_daemon_set w namespace name)
                  (client.delete_daemon_set namespace name) w (d.keeps w);
          })

    pub handle_finalizer-Keeps :
        Keeps sees (delete client fb)
        → ((f : FluentBit Resources Toleration Affinity)
            → f.namespace ≡ namespace
            → f.name ≡ name
            → Keeps sees (client.update f))
        → Keeps sees (handle_finalizer client fb)
    unfolding handle_finalizer remove_finalizer
    handle_finalizer-Keeps d u = elim (Bool-cases (has_finalizer fluent_bit_finalizer_name fb)) [
      | inl e ↦ rw e (
          Keeps-then sees (delete client fb) _ d
            (λ v. u (remove_finalizer fluent_bit_finalizer_name fb) refl refl))
      | inr e ↦ rw e (Keeps-return sees tt)
    ]

    module _ (log_path : String) (namespaced : Bool) where
      create-Keeps :
          (o : Object)
          → Keeps sees (client.create o)
          → Keeps sees (create_unless_there client log_path namespaced o)
      unfolding create_unless_there
      create-Keeps o c = record {
        keeps = λ w. ap sees (ignore_already_exists-world (client.create o w)) ∙ c.keeps w;
      }

      pub install-Keeps :
          ((o : Object) → Keeps sees (client.create o))
          → ((c : Result (Controlled Resources Toleration Affinity))
              → Keeps sees (client.create_or_patch namespace name c))
          → Keeps sees (install client log_path namespaced fb)
      unfolding install
      install-Keeps c p = search (keeping, create-Keeps, c, p) depth 12

      pub deploy-Keeps :
          Keeps sees (install client log_path namespaced fb)
          → (r : Result (Unit {0})) → Keeps sees (deploy client log_path namespaced fb r)
      unfolding deploy
      deploy-Keeps i (ok u) = record { keeps = i.keeps }
      deploy-Keeps i (err (not_found s)) = record { keeps = λ w. refl }
      deploy-Keeps i (err (already_exists s)) = record { keeps = λ w. refl }
      deploy-Keeps i (err (other s)) = record { keeps = λ w. refl }
      deploy-Keeps i (err panicked) = record { keeps = λ w. refl }
