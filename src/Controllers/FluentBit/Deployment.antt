-- ===== src/Controllers/FluentBit/Deployment.antt =====
-- A FluentBit that is not being deleted, in a cluster whose calls succeed.
use mathlib.Core.Path.{subst}
use fluentbit_operator.Prelude.{
  ◌≡◌, refl, sym, ◌∙◌, ℕ, zero, suc, String, Bool, true, false, some, ◌⊎◌, inl, inr, Bool-cases,
}
use fluentbit_operator.Result.{Result, ok, err, not_found, already_exists, other, panicked}
use fluentbit_operator.FluentBit.{
  FluentBit, is_being_deleted, has_finalizer, add_finalizer, fluent_bit_finalizer_name,
}
use fluentbit_operator.FluentBit.Finalizers.{has_finalizer-add}
use fluentbit_operator.Operator.Rbac.{Object}
use fluentbit_operator.Run.{Run, ◌>>◌, return, read}
use fluentbit_operator.Controllers.Errors.{ignore_already_exists}
use fluentbit_operator.Run.Laws.{Achieves, Achieves-then, then_return-world}
use fluentbit_operator.Controllers.Errors.{ignore_already_exists-world}
use fluentbit_operator.Controllers.FluentBit.{
  Client, wrap, put_finalizer, access_objects, create_unless_there, expected, mutate, install,
  deploy, reconcile_found, reconcile,
}
use fluentbit_operator.Controllers.FluentBit.Laws.{View, Serves, wrap-world}

ignore_already_exists_ok :
    {World : Type 0} (p : World × Result (Unit {0}))
    → (p.1 ≡ ok tt) ⊎ ((s : String) × (p.1 ≡ err (already_exists s)))
    → (ignore_already_exists p).1 ≡ ok tt
unfolding ignore_already_exists
ignore_already_exists_ok (w, ok a) h = refl
ignore_already_exists_ok (w, err (already_exists s)) h = refl
ignore_already_exists_ok (w, err (not_found s)) h = elim h [ inl e ↦ cc | inr (t, e) ↦ cc ]
ignore_already_exists_ok (w, err (other s)) h = elim h [ inl e ↦ cc | inr (t, e) ↦ cc ]
ignore_already_exists_ok (w, err panicked) h = elim h [ inl e ↦ cc | inr (t, e) ↦ cc ]

module _ {World Resources Toleration Affinity : Type 0}
    (client : Client World Resources Toleration Affinity)
    (view : View World Resources Toleration Affinity) (serves : Serves client view)
    (log_path : String) (namespaced : Bool) (fb : FluentBit Resources Toleration Affinity) where
  open fb use {namespace, name}

  -- The cluster holds this FluentBit, and the Secret with its configuration.
  pub record IsDeployable (f : FluentBit Resources Toleration Affinity) (w : World) : Type 0 where
    pub stored : view.fluent_bit w namespace name ≡ some f
    pub secret : client.get_secret w namespace fb.fluent_bit_config_name ≡ ok tt

  abbrev Kept : {A : Type 0} → Run World A → Type 0
  Kept m = Achieves (IsDeployable fb) m (λ _. IsDeployable fb)

  referenced-Kept : Kept (read (λ w. client.set_controller_reference fb))
  referenced-Kept w p = (tt, serves.referenced fb, p)

  create-Kept : (o : Object) → Kept (create_unless_there client log_path namespaced o)
  unfolding create_unless_there
  create-Kept o w p =
      let same = ignore_already_exists-world (client.create o w) in
      (
        tt,
        ignore_already_exists_ok (client.create o w) (serves.created w o),
        subst (IsDeployable fb) (sym same) (record {
          stored = serves.create-fluent_bit w o namespace name ∙ p.stored;
          secret = serves.create-secret w o namespace fb.fluent_bit_config_name ∙ p.secret;
        }),
      )

  -- The DaemonSet is there as it is meant to be, and the FluentBit can still be deployed.
  abbrev pub IsDeployed : World → Type 0
  IsDeployed w =
      IsDeployable fb w
      × (view.daemon_set w namespace name ≡ some (expected client log_path namespaced fb))

  mutate-eq : mutate client log_path namespaced fb ≡ ok (expected client log_path namespaced fb)
  unfolding mutate
  mutate-eq = rw (mutate, serves.referenced fb) refl

  patch-IsDeployed :
      Achieves
        (IsDeployable fb)
        (client.create_or_patch namespace name (mutate client log_path namespaced fb))
        (λ _. IsDeployed)
  patch-IsDeployed w p =
      let c = expected client log_path namespaced fb in
      rw mutate-eq (
        tt,
        serves.patched w namespace name c,
        (
          record {
            stored = serves.patch-fluent_bit w namespace name namespace name c ∙ p.stored;
            secret =
                serves.patch-secret w namespace name namespace fb.fluent_bit_config_name c
                ∙ p.secret;
          },
          serves.patch-daemon_set w namespace name c,
        ),
      )

  abbrev Done : Bool → World → Type 0
  Done b w = (b ≡ false) × IsDeployed w

  and_then :
      (m : Run World (Unit {0})) (k : Run World Bool)
      → Kept m
      → Achieves (IsDeployable fb) k Done
      → Achieves (IsDeployable fb) (m >> k) Done
  and_then m k h j =
      Achieves-then (IsDeployable fb) (λ _. IsDeployable fb) Done m (λ _. k) h (λ _. j)

  abbrev refer : Run World (Unit {0})
  refer = read (λ w. client.set_controller_reference fb)

  abbrev put : Object → Run World (Unit {0})
  put = create_unless_there client log_path namespaced

  abbrev patch : Run World Bool
  patch =
      client.create_or_patch namespace name (mutate client log_path namespaced fb) >> return false

  patch-Done : Achieves (IsDeployable fb) patch Done
  patch-Done =
      Achieves-then (IsDeployable fb) (λ _. IsDeployed) Done
        (client.create_or_patch namespace name (mutate client log_path namespaced fb))
        (λ _. return false) patch-IsDeployed (λ u w q. (false, refl, (refl, q)))

  install_deploys : Achieves (IsDeployable fb) (install client log_path namespaced fb) Done
  unfolding install
  install_deploys =
      let (r, a, b) = access_objects client log_path namespaced fb in
      and_then refer (put r >> put a >> put b >> refer >> patch) referenced-Kept (
        and_then (put r) (put a >> put b >> refer >> patch) (create-Kept r) (
          and_then (put a) (put b >> refer >> patch) (create-Kept a) (
            and_then (put b) (refer >> patch) (create-Kept b)
              (and_then refer patch referenced-Kept patch-Done))))

  module _ (alive : is_being_deleted fb ≡ false) where
    -- A round of a FluentBit with the finalizer.
    reconcile_deploys :
        (w : World)
        → IsDeployable fb w
        → has_finalizer fluent_bit_finalizer_name fb ≡ true
        → IsDeployed (reconcile client log_path namespaced namespace name w).0
    unfolding reconcile reconcile_found deploy
    reconcile_deploys w p h =
        rw (serves.found w namespace name fb p.stored)
          (rw alive (rw h (rw p.secret (let (b, e, d) = install_deploys w p in d.1))))

    -- A round of a FluentBit without the finalizer.
    reconcile_adds :
        (w : World)
        → IsDeployable fb w
        → has_finalizer fluent_bit_finalizer_name fb ≡ false
        → IsDeployable
            (add_finalizer fluent_bit_finalizer_name fb)
            (reconcile client log_path namespaced namespace name w).0
    unfolding reconcile reconcile_found put_finalizer add_finalizer is_being_deleted
    reconcile_adds w p h = rw (serves.found w namespace name fb p.stored) (
        rw alive (
          rw h (
            subst (IsDeployable (add_finalizer fluent_bit_finalizer_name fb)) (sym added-world)
              added)))
      where
        added-world :
            (wrap "error when adding finalizer: " ((put_finalizer client fb >> return false) w)).0
            ≡ (client.update (add_finalizer fluent_bit_finalizer_name fb) w).0
        added-world =
            wrap-world _ ((put_finalizer client fb >> return false) w)
            ∙ then_return-world (put_finalizer client fb) (λ _. return false) w false

        added :
            IsDeployable
              (add_finalizer fluent_bit_finalizer_name fb)
              (client.update (add_finalizer fluent_bit_finalizer_name fb) w).0
        added = record {
          stored = serves.update-fluent_bit w (add_finalizer fluent_bit_finalizer_name fb) alive;
          secret =
              serves.update-secret w (add_finalizer fluent_bit_finalizer_name fb) namespace
                fb.fluent_bit_config_name
              ∙ p.secret;
        }

module _ {World Resources Toleration Affinity : Type 0}
    (client : Client World Resources Toleration Affinity) (log_path : String) (namespaced : Bool)
    (ns n : String) where
  -- Reconciliations of one FluentBit, one after the other.
  unfoldable pub rounds : ℕ → World → World
  unfolding reconcile
  rounds zero w = w
  rounds (suc k) w = rounds k (reconcile client log_path namespaced ns n w).0

module _ {World Resources Toleration Affinity : Type 0}
    (client : Client World Resources Toleration Affinity)
    (view : View World Resources Toleration Affinity) (serves : Serves client view)
    (log_path : String) (namespaced : Bool) where
  abbrev go : FluentBit Resources Toleration Affinity → ℕ → World → World
  go fb = rounds client log_path namespaced fb.namespace fb.name

  rounds-IsDeployed :
      (fb : FluentBit Resources Toleration Affinity) (k : ℕ) (w : World)
      → is_being_deleted fb ≡ false
      → has_finalizer fluent_bit_finalizer_name fb ≡ true
      → IsDeployed client view serves log_path namespaced fb w
      → IsDeployed client view serves log_path namespaced fb (go fb k w)
  unfolding rounds
  rounds-IsDeployed fb zero w a h d = d
  rounds-IsDeployed fb (suc k) w a h d =
      rounds-IsDeployed fb k _ a h
        (reconcile_deploys client view serves log_path namespaced fb a w d.0 h)

  rounds_with_finalizer :
      (fb : FluentBit Resources Toleration Affinity) (k : ℕ) (w : World)
      → is_being_deleted fb ≡ false
      → has_finalizer fluent_bit_finalizer_name fb ≡ true
      → IsDeployable client view serves log_path namespaced fb fb w
      → IsDeployed client view serves log_path namespaced fb (go fb (suc k) w)
  unfolding rounds
  rounds_with_finalizer fb k w a h p =
      rounds-IsDeployed fb k _ a h
        (reconcile_deploys client view serves log_path namespaced fb a w p h)

  -- Where every call of the client succeeds, and the FluentBit is in the cluster, is not being deleted,
  -- and its Secret is there, two reconciliations bring the DaemonSet that it is meant to have, and further
  -- ones leave it so.
  pub rounds_deploy :
      (fb : FluentBit Resources Toleration Affinity) (k : ℕ) (w : World)
      → is_being_deleted fb ≡ false
      → view.fluent_bit w fb.namespace fb.name ≡ some fb
      → client.get_secret w fb.namespace fb.fluent_bit_config_name ≡ ok tt
      → view.daemon_set
          (rounds client log_path namespaced fb.namespace fb.name (suc (suc k)) w)
          fb.namespace
          fb.name
        ≡ some (expected client log_path namespaced fb)
  unfolding rounds add_finalizer is_being_deleted expected
  rounds_deploy fb k w a stored secret =
      let p : IsDeployable client view serves log_path namespaced fb fb w = record {
        stored = stored;
        secret = secret;
      } in
      elim (Bool-cases (has_finalizer fluent_bit_finalizer_name fb)) [
        | inl h ↦ (rounds_with_finalizer fb (suc k) w a h p).1
        | inr h ↦
            let q = reconcile_adds client view serves log_path namespaced fb a w p h in
            (rounds_with_finalizer (add_finalizer fluent_bit_finalizer_name fb) k _ a
              (has_finalizer-add fluent_bit_finalizer_name fb fluent_bit_finalizer_name)
              (record { stored = q.stored; secret = q.secret })).1
      ]
