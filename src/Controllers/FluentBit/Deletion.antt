-- ===== src/Controllers/FluentBit/Deletion.antt =====
-- A FluentBit that is being deleted.
use mathlib.Core.Path.{subst}
use fluentbit_operator.Prelude.{
  ◌≡◌, refl, sym, ap, ◌∙◌, String, Bool, true, false, Option, none, ◌⊎◌, inl, inr,
}
use fluentbit_operator.Result.{
  Result, ok, err, not_found, already_exists, other, panicked, Result-cases,
}
use fluentbit_operator.FluentBit.{
  FluentBit, is_being_deleted, has_finalizer, remove_finalizer, fluent_bit_finalizer_name,
}
use fluentbit_operator.Run.{Run, ◌>>◌, return}
use fluentbit_operator.Run.Laws.{then_ok, then-eq, then_err, then_return-world, then-kept}
use fluentbit_operator.Controllers.Errors.{ignore_not_found-world, ignore_not_found_ok}
use fluentbit_operator.Controllers.FluentBit.{
  Client, delete_found, delete_account, delete_pods, delete, handle_finalizer, wrap,
  reconcile_found, reconcile,
}
use fluentbit_operator.Controllers.FluentBit.Laws.{View, DeletesSoundly, wrap-world, wrap_ok}

module _ {World Resources Toleration Affinity : Type 0}
    (client : Client World Resources Toleration Affinity) where
  pub delete_found-kept :
      {X : Type 0} (see : World → X) (r : Result (Unit {0})) (d : Run World (Unit {0})) (w : World)
      → see (d w).0 ≡ see w
      → see (delete_found client r d w).0 ≡ see w
  unfolding delete_found
  delete_found-kept see (ok u) d w h = ap see (ignore_not_found-world (d w)) ∙ h
  delete_found-kept see (err (not_found s)) d w h = refl
  delete_found-kept see (err (already_exists s)) d w h = refl
  delete_found-kept see (err (other s)) d w h = refl
  delete_found-kept see (err panicked) d w h = refl

  delete_found_absent :
      {X : Type 0} (see : World → Option X) (r : Result (Unit {0})) (d : Run World (Unit {0}))
      (w : World) (u : Unit {0})
      → ((s : String) → r ≡ err (not_found s) → see w ≡ none)
      → ((d w).1 ≡ ok tt → see (d w).0 ≡ none)
      → ((s : String) → (d w).1 ≡ err (not_found s) → see (d w).0 ≡ none)
      → (delete_found client r d w).1 ≡ ok u
      → see (delete_found client r d w).0 ≡ none
  unfolding delete_found
  delete_found_absent see (ok v) d w u a b c h =
      ap see (ignore_not_found-world (d w))
      ∙ (elim (ignore_not_found_ok (d w) u h) [ inl e ↦ b e | inr (s, e) ↦ c s e ])
  delete_found_absent see (err (not_found s)) d w u a b c h = a s refl
  delete_found_absent see (err (already_exists s)) d w u a b c h = cc
  delete_found_absent see (err (other s)) d w u a b c h = cc
  delete_found_absent see (err panicked) d w u a b c h = cc

module _ {World Resources Toleration Affinity : Type 0}
    (client : Client World Resources Toleration Affinity)
    (view : View World Resources Toleration Affinity) (sound : DeletesSoundly client view) where
  -- Neither the service account nor the DaemonSet of that name is there.
  abbrev pub IsGone : World → String → String → Type 0
  IsGone w ns n = (view.account w ns n ≡ none) × (view.daemon_set w ns n ≡ none)

  module _ (fb : FluentBit Resources Toleration Affinity) where
    open fb use {namespace, name}

    abbrev see_fluent_bit : World → Option (FluentBit Resources Toleration Affinity)
    see_fluent_bit w = view.fluent_bit w namespace name

    delete_account-fluent_bit :
        (w : World) → see_fluent_bit (delete_account client fb w).0 ≡ see_fluent_bit w
    unfolding delete_account
    delete_account-fluent_bit w =
        delete_found-kept client see_fluent_bit (client.get_service_account w namespace name)
          (client.delete_service_account namespace name) w
          (sound.account-fluent_bit w namespace name)

    delete_pods-fluent_bit :
        (w : World) → see_fluent_bit (delete_pods client fb w).0 ≡ see_fluent_bit w
    unfolding delete_pods
    delete_pods-fluent_bit w =
        delete_found-kept client see_fluent_bit (client.get_daemon_set w namespace name)
          (client.delete_daemon_set namespace name) w (sound.daemon_set-fluent_bit w namespace name)

    delete_pods-account :
        (w : World)
        → view.account (delete_pods client fb w).0 namespace name ≡ view.account w namespace name
    unfolding delete_pods
    delete_pods-account w =
        delete_found-kept client (λ w'. view.account w' namespace name)
          (client.get_daemon_set w namespace name) (client.delete_daemon_set namespace name) w
          (sound.daemon_set-account w namespace name)

    delete_account_gone :
        (w : World) (u : Unit {0})
        → (delete_account client fb w).1 ≡ ok u
        → view.account (delete_account client fb w).0 namespace name ≡ none
    unfolding delete_account
    delete_account_gone w u h =
        delete_found_absent client (λ w'. view.account w' namespace name)
          (client.get_service_account w namespace name)
          (client.delete_service_account namespace name) w u
          (sound.account_not_found w namespace name) (sound.account_deleted w namespace name)
          (sound.account_gone w namespace name) h

    delete_pods_gone :
        (w : World) (u : Unit {0})
        → (delete_pods client fb w).1 ≡ ok u
        → view.daemon_set (delete_pods client fb w).0 namespace name ≡ none
    unfolding delete_pods
    delete_pods_gone w u h =
        delete_found_absent client (λ w'. view.daemon_set w' namespace name)
          (client.get_daemon_set w namespace name) (client.delete_daemon_set namespace name) w u
          (sound.daemon_set_not_found w namespace name) (sound.daemon_set_deleted w namespace name)
          (sound.daemon_set_gone w namespace name) h

    delete-fluent_bit : (w : World) → see_fluent_bit (delete client fb w).0 ≡ see_fluent_bit w
    unfolding delete
    delete-fluent_bit w =
        then-kept (delete_account client fb) (λ _. delete_pods client fb) w see_fluent_bit
          (delete_account-fluent_bit w) (λ u. delete_pods-fluent_bit)

    delete-IsGone :
        (w : World) (u : Unit {0})
        → (delete client fb w).1 ≡ ok u
        → IsGone (delete client fb w).0 namespace name
    unfolding delete
    delete-IsGone w u h =
        let (v, a, e) = then_ok (delete_account client fb) (λ _. delete_pods client fb) w u h in
        let w' = (delete_account client fb w).0 in
        let d : (delete_pods client fb w').1 ≡ ok u =
          sym (ap (λ (p : World × Result (Unit {0})). p.1) e) ∙ h in
        subst (λ (p : World × Result (Unit {0})). IsGone p.0 namespace name) (sym e)
          (delete_pods-account w' ∙ delete_account_gone w v a, delete_pods_gone w' u d)

    abbrev removal : Run World (Unit {0})
    removal = client.update (remove_finalizer fluent_bit_finalizer_name fb)

    handle_finalizer-eq :
        has_finalizer fluent_bit_finalizer_name fb ≡ true
        → handle_finalizer client fb ≡ (delete client fb >> removal)
    unfolding handle_finalizer
    handle_finalizer-eq h = rw h refl

    reconcile-world :
        (log_path : String) (namespaced : Bool) (w : World) (ns n : String)
        → client.get_fluent_bit w ns n ≡ ok fb
        → is_being_deleted fb ≡ true
        → has_finalizer fluent_bit_finalizer_name fb ≡ true
        → (reconcile client log_path namespaced ns n w).0 ≡ ((delete client fb >> removal) w).0
    unfolding reconcile reconcile_found
    reconcile-world log_path namespaced w ns n e d h = rw e (
        rw d (
          wrap-world _ ((handle_finalizer client fb >> return false) w)
          ∙ then_return-world (handle_finalizer client fb) (λ _. return false) w false
          ∙ ap (λ (m : Run World (Unit {0})). (m w).0) (handle_finalizer-eq h)))

    removal-IsGone : (w : World) → IsGone w namespace name → IsGone (removal w).0 namespace name
    removal-IsGone w (a, d) = (
      sound.update-account w (remove_finalizer fluent_bit_finalizer_name fb) namespace name ∙ a,
      sound.update-daemon_set w (remove_finalizer fluent_bit_finalizer_name fb) namespace name ∙ d,
    )

    -- A FluentBit that is being deleted, and has the finalizer, stays in the cluster as it is until
    -- neither its service account nor its DaemonSet is there, whatever calls of the client fail, where the
    -- client deletes soundly.
    pub reconcile_guards :
        (log_path : String) (namespaced : Bool) (w : World)
        → client.get_fluent_bit w namespace name ≡ ok fb
        → is_being_deleted fb ≡ true
        → has_finalizer fluent_bit_finalizer_name fb ≡ true
        → let w' = (reconcile client log_path namespaced namespace name w).0 in
          IsGone w' namespace name
          ⊎ (view.fluent_bit w' namespace name ≡ view.fluent_bit w namespace name)
    reconcile_guards log_path namespaced w e d h =
        let same = reconcile-world log_path namespaced w namespace name e d h in
        elim (Result-cases (delete client fb w).1) [
          | inl (u, f) ↦
              let then = then-eq (delete client fb) (λ _. removal) w u f in
              inl (
                subst (λ w'. IsGone w' namespace name)
                  (sym (same ∙ ap (λ (p : World × Result (Unit {0})). p.0) then))
                  (removal-IsGone (delete client fb w).0 (delete-IsGone w u f)))
          | inr (x, f) ↦
              let then = then_err (delete client fb) (λ _. removal) w x f in
              inr (
                ap see_fluent_bit (same ∙ ap (λ (p : World × Result (Unit {0})). p.0) then)
                ∙ delete-fluent_bit w)
        ]

    reconcile-eq :
        (log_path : String) (namespaced : Bool) (w : World) (ns n : String)
        → client.get_fluent_bit w ns n ≡ ok fb
        → is_being_deleted fb ≡ true
        → reconcile client log_path namespaced ns n w
          ≡ wrap "error when handling finalizer: " ((handle_finalizer client fb >> return false) w)
    unfolding reconcile reconcile_found
    reconcile-eq log_path namespaced w ns n e d = rw e (rw d refl)

    -- Where such a reconciliation returns no error, neither is there, and the finalizer has been taken off
    -- by an update that succeeded.
    pub reconcile_releases :
        (log_path : String) (namespaced : Bool) (w : World) (b : Bool)
        → client.get_fluent_bit w namespace name ≡ ok fb
        → is_being_deleted fb ≡ true
        → has_finalizer fluent_bit_finalizer_name fb ≡ true
        → (reconcile client log_path namespaced namespace name w).1 ≡ ok b
        → let w' = (delete client fb w).0 in
          IsGone (reconcile client log_path namespaced namespace name w).0 namespace name
          × ((removal w').1 ≡ ok tt)
          × ((reconcile client log_path namespaced namespace name w).0 ≡ (removal w').0)
    reconcile_releases log_path namespaced w b e d h s =
        let same = reconcile-world log_path namespaced w namespace name e d h in
        let s' = wrap_ok _ ((handle_finalizer client fb >> return false) w) b (
          sym (
            ap (λ (p : World × Result Bool). p.1)
              (reconcile-eq log_path namespaced w namespace name e d))
          ∙ s) in
        let (u, handled, _) = then_ok (handle_finalizer client fb) (λ _. return false) w b s' in
        let handled' =
          sym (ap (λ (m : Run World (Unit {0})). (m w).1) (handle_finalizer-eq h)) ∙ handled in
        let (v, deleted, then) = then_ok (delete client fb) (λ _. removal) w u handled' in
        let there = same ∙ ap (λ (p : World × Result (Unit {0})). p.0) then in
        (
          subst (λ w'. IsGone w' namespace name) (sym there)
              (removal-IsGone (delete client fb w).0 (delete-IsGone w v deleted)),
          sym (ap (λ (p : World × Result (Unit {0})). p.1) then) ∙ handled',
          there,
        )
