-- ===== src/Controllers/FluentBit/Laws.antt =====
-- What the controller relies on of the API server, by what is in the cluster: for each object its value, if it
-- is there and not about to go. A call that fails may have had no effect, or the effect that it was meant to have.
use fluentbit_operator.Prelude.{◌≡◌, refl, String, Bool, false, Option, none, some, ◌⊎◌}
use fluentbit_operator.Result.{Result, ok, err, not_found, already_exists}
use fluentbit_operator.FluentBit.{FluentBit, is_being_deleted}
use fluentbit_operator.Operator.Rbac.{Object, ServiceAccount}
use fluentbit_operator.Controllers.FluentBit.{Client, Controlled, wrap}

-- Views of the cluster, by namespace and name.
pub record View (World Resources Toleration Affinity : Type 0) : Type 0 where
  pub fluent_bit : World → String → String → Option (FluentBit Resources Toleration Affinity)
  pub account : World → String → String → Option ServiceAccount
  pub daemon_set : World → String → String → Option (Controlled Resources Toleration Affinity)

-- Deleting reports success, or that nothing is there, only when nothing is there; it touches no other kind.
pub record DeletesSoundly {World Resources Toleration Affinity : Type 0}
    (client : Client World Resources Toleration Affinity)
    (view : View World Resources Toleration Affinity) : Type 0 where
  pub account_not_found :
      (w : World) (ns n s : String)
      → client.get_service_account w ns n ≡ err (not_found s)
      → view.account w ns n ≡ none
  pub account_deleted :
      (w : World) (ns n : String)
      → (client.delete_service_account ns n w).1 ≡ ok tt
      → view.account (client.delete_service_account ns n w).0 ns n ≡ none
  pub account_gone :
      (w : World) (ns n s : String)
      → (client.delete_service_account ns n w).1 ≡ err (not_found s)
      → view.account (client.delete_service_account ns n w).0 ns n ≡ none
  pub daemon_set_not_found :
      (w : World) (ns n s : String)
      → client.get_daemon_set w ns n ≡ err (not_found s)
      → view.daemon_set w ns n ≡ none
  pub daemon_set_deleted :
      (w : World) (ns n : String)
      → (client.delete_daemon_set ns n w).1 ≡ ok tt
      → view.daemon_set (client.delete_daemon_set ns n w).0 ns n ≡ none
  pub daemon_set_gone :
      (w : World) (ns n s : String)
      → (client.delete_daemon_set ns n w).1 ≡ err (not_found s)
      → view.daemon_set (client.delete_daemon_set ns n w).0 ns n ≡ none
  pub account-fluent_bit :
      (w : World) (ns n : String)
      → view.fluent_bit (client.delete_service_account ns n w).0 ns n ≡ view.fluent_bit w ns n
  pub daemon_set-fluent_bit :
      (w : World) (ns n : String)
      → view.fluent_bit (client.delete_daemon_set ns n w).0 ns n ≡ view.fluent_bit w ns n
  pub daemon_set-account :
      (w : World) (ns n : String)
      → view.account (client.delete_daemon_set ns n w).0 ns n ≡ view.account w ns n
  pub update-account :
      (w : World) (fb : FluentBit Resources Toleration Affinity) (ns n : String)
      → view.account (client.update fb w).0 ns n ≡ view.account w ns n
  pub update-daemon_set :
      (w : World) (fb : FluentBit Resources Toleration Affinity) (ns n : String)
      → view.daemon_set (client.update fb w).0 ns n ≡ view.daemon_set w ns n

-- Every call succeeds, or says that the object is there already, and does what it is meant to.
pub record Serves {World Resources Toleration Affinity : Type 0}
    (client : Client World Resources Toleration Affinity)
    (view : View World Resources Toleration Affinity) : Type 0 where
  pub found :
      (w : World) (ns n : String) (fb : FluentBit Resources Toleration Affinity)
      → view.fluent_bit w ns n ≡ some fb
      → client.get_fluent_bit w ns n ≡ ok fb
  pub updated :
      (w : World) (fb : FluentBit Resources Toleration Affinity) → (client.update fb w).1 ≡ ok tt
  pub update-fluent_bit :
      (w : World) (fb : FluentBit Resources Toleration Affinity)
      → is_being_deleted fb ≡ false
      → view.fluent_bit (client.update fb w).0 fb.namespace fb.name ≡ some fb
  pub update-secret :
      (w : World) (fb : FluentBit Resources Toleration Affinity) (ns n : String)
      → client.get_secret (client.update fb w).0 ns n ≡ client.get_secret w ns n
  pub created :
      (w : World) (o : Object)
      → ((client.create o w).1 ≡ ok tt)
        ⊎ ((s : String) × ((client.create o w).1 ≡ err (already_exists s)))
  pub create-fluent_bit :
      (w : World) (o : Object) (ns n : String)
      → view.fluent_bit (client.create o w).0 ns n ≡ view.fluent_bit w ns n
  pub create-secret :
      (w : World) (o : Object) (ns n : String)
      → client.get_secret (client.create o w).0 ns n ≡ client.get_secret w ns n
  pub referenced :
      (fb : FluentBit Resources Toleration Affinity) → client.set_controller_reference fb ≡ ok tt
  pub patched :
      (w : World) (ns n : String) (c : Controlled Resources Toleration Affinity)
      → (client.create_or_patch ns n (ok c) w).1 ≡ ok tt
  pub patch-daemon_set :
      (w : World) (ns n : String) (c : Controlled Resources Toleration Affinity)
      → view.daemon_set (client.create_or_patch ns n (ok c) w).0 ns n ≡ some c
  pub patch-fluent_bit :
      (w : World) (ns n ns' n' : String) (c : Controlled Resources Toleration Affinity)
      → view.fluent_bit (client.create_or_patch ns n (ok c) w).0 ns' n' ≡ view.fluent_bit w ns' n'
  pub patch-secret :
      (w : World) (ns n ns' n' : String) (c : Controlled Resources Toleration Affinity)
      → client.get_secret (client.create_or_patch ns n (ok c) w).0 ns' n'
        ≡ client.get_secret w ns' n'

pub wrap-world : {World : Type 0} (s : String) (p : World × Result Bool) → (wrap s p).0 ≡ p.0
unfolding wrap
wrap-world s (w, ok b) = refl
wrap-world s (w, err e) = refl

pub wrap_ok :
    {World : Type 0} (s : String) (p : World × Result Bool) (b : Bool)
    → (wrap s p).1 ≡ ok b
    → p.1 ≡ ok b
unfolding wrap
wrap_ok s (w, ok a) b h = h
wrap_ok s (w, err e) b h = cc
