-- ===== src/Controllers/FluentBit/Guard.antt =====
-- The finalizer guards the DaemonSet, in every course of reconciliations and of what else happens to the cluster.
use mathlib.Core.Path.{subst}
use fluentbit_operator.Prelude.{
  true≢false, some-injective, same_key, ◌≡◌, refl, sym, ap, ap₂, ◌∙◌, String, Bool, true, false,
  Bool-cases, Option, none, some, ◌⊎◌, inl, inr,
}
use fluentbit_operator.Result.{Result, ok, err, not_found, already_exists, other, panicked}
use fluentbit_operator.FluentBit.{
  FluentBit, is_being_deleted, has_finalizer, add_finalizer, fluent_bit_finalizer_name,
}
use fluentbit_operator.Operator.Rbac.{Object}
use fluentbit_operator.Run.{◌>>◌, return}
use fluentbit_operator.Run.Laws.{then_return-world, Keeps}
use fluentbit_operator.Controllers.FluentBit.{
  Client, Controlled, put_finalizer, handle_finalizer, deploy, reconcile_found, reconcile,
}
use fluentbit_operator.Controllers.FluentBit.Laws.{View, DeletesSoundly, wrap-world}
use fluentbit_operator.Controllers.FluentBit.Kept.{
  delete-Keeps, handle_finalizer-Keeps, install-Keeps, deploy-Keeps,
}
use fluentbit_operator.Controllers.FluentBit.Deletion.{reconcile_guards}

module _ {World Resources Toleration Affinity : Type 0}
    (client : Client World Resources Toleration Affinity)
    (view : View World Resources Toleration Affinity) where
  -- What is seen under a namespace and a name.
  abbrev pub Seen : Type 0
  Seen =
      Option (FluentBit Resources Toleration Affinity)
      × Option (Controlled Resources Toleration Affinity)

  abbrev pub see : String → String → World → Seen
  see ns n w = (view.fluent_bit w ns n, view.daemon_set w ns n)

  abbrev pub Apart : String → String → String → String → Type 0
  Apart ns n ns' n' = ¬ ((ns ≡ ns') × (n ≡ n'))

  -- A read is current, and a call changes only the object that it is about.
  pub record IsLocal : Type 0 where
    pub found :
        (w : World) (ns n : String) (fb : FluentBit Resources Toleration Affinity)
        → client.get_fluent_bit w ns n ≡ ok fb
        → (view.fluent_bit w ns n ≡ some fb) × (fb.namespace ≡ ns) × (fb.name ≡ n)
    pub update-apart :
        (w : World) (ns n : String) (fb : FluentBit Resources Toleration Affinity)
        → Apart ns n fb.namespace fb.name
        → see ns n (client.update fb w).0 ≡ see ns n w
    pub create-seen :
        (w : World) (ns n : String) (o : Object) → see ns n (client.create o w).0 ≡ see ns n w
    pub account-seen :
        (w : World) (ns n ns' n' : String)
        → see ns n (client.delete_service_account ns' n' w).0 ≡ see ns n w
    pub daemon_set-apart :
        (w : World) (ns n ns' n' : String)
        → Apart ns n ns' n'
        → see ns n (client.delete_daemon_set ns' n' w).0 ≡ see ns n w
    pub patch-apart :
        (w : World) (ns n ns' n' : String) (c : Result (Controlled Resources Toleration Affinity))
        → Apart ns n ns' n'
        → see ns n (client.create_or_patch ns' n' c w).0 ≡ see ns n w
    pub patch-fluent_bit :
        (w : World) (ns n ns' n' : String) (c : Result (Controlled Resources Toleration Affinity))
        → view.fluent_bit (client.create_or_patch ns' n' c w).0 ns n ≡ view.fluent_bit w ns n

  -- A FluentBit with the finalizer is there.
  abbrev pub IsHeld : Option (FluentBit Resources Toleration Affinity) → Type 0
  IsHeld o =
      (fb : FluentBit Resources Toleration Affinity) × (o ≡ some fb)
      × (has_finalizer fluent_bit_finalizer_name fb ≡ true)

  -- Where there is a DaemonSet, there is a FluentBit of its name with the finalizer.
  abbrev pub IsGuarded : Seen → Type 0
  IsGuarded s = (s.1 ≡ none) ⊎ IsHeld s.0

  -- Anything but the controller: it makes no DaemonSet, and takes off no finalizer.
  abbrev pub Outside : World → World → Type 0
  Outside w w' =
      (ns n : String)
      → (view.daemon_set w ns n ≡ none → view.daemon_set w' ns n ≡ none)
        × (IsHeld (view.fluent_bit w ns n) → IsHeld (view.fluent_bit w' ns n))

  module _ (log_path : String) (namespaced : Bool) where
    pub data Reachable : World → Type 0 where
      empty : (w : World) → ((ns n : String) → view.daemon_set w ns n ≡ none) → Reachable w
      reconciles :
          (w : World) (ns n : String)
          → Reachable w
          → Reachable (reconcile client log_path namespaced ns n w).0
      outside : (w w' : World) → Reachable w → Outside w w' → Reachable w'

  module _ (sound : DeletesSoundly client view) (local : IsLocal) (log_path : String)
      (namespaced : Bool) where
    -- Under another namespace or name, nothing changes.
    module _ (ns n : String) (fb : FluentBit Resources Toleration Affinity)
        (apart : Apart ns n fb.namespace fb.name) where
      update-Keeps :
          (f : FluentBit Resources Toleration Affinity)
          → f.namespace ≡ fb.namespace
          → f.name ≡ fb.name
          → Keeps (see ns n) (client.update f)
      update-Keeps f e e' = record {
        keeps = λ w. local.update-apart w ns n f (λ p. apart (p.0 ∙ e, p.1 ∙ e'));
      }

      found-Keeps :
          (w : World)
          → see ns n (reconcile_found client log_path namespaced (ok fb) w).0 ≡ see ns n w
      unfolding reconcile_found put_finalizer add_finalizer
      found-Keeps w = elim (Bool-cases (is_being_deleted fb)) [
        | inl e ↦ rw e (
            ap (see ns n) (
              wrap-world _ ((handle_finalizer client fb >> return false) w)
              ∙ then_return-world (handle_finalizer client fb) (λ _. return false) w false)
            ∙ (handle_finalizer-Keeps client (see ns n) fb
                  (delete-Keeps client (see ns n) fb
                    (record { keeps = λ w'. local.account-seen w' ns n fb.namespace fb.name })
                    (record {
                      keeps = λ w'. local.daemon_set-apart w' ns n fb.namespace fb.name apart;
                    }))
                  update-Keeps).keeps
                w)
        | inr e ↦ elim (Bool-cases (has_finalizer fluent_bit_finalizer_name fb)) [
          | inl h ↦
              rw (e, h)
                ((deploy-Keeps client (see ns n) fb log_path namespaced
                    (install-Keeps client (see ns n) fb log_path namespaced
                      (λ o. record { keeps = λ w'. local.create-seen w' ns n o })
                      (λ c. record {
                        keeps = λ w'. local.patch-apart w' ns n fb.namespace fb.name c apart;
                      }))
                    (client.get_secret w fb.namespace fb.fluent_bit_config_name)).keeps
                  w)
          | inr h ↦
              rw (e, h)
                (ap (see ns n) (
                    wrap-world _ ((put_finalizer client fb >> return false) w)
                    ∙ then_return-world (put_finalizer client fb) (λ _. return false) w false)
                  ∙ (update-Keeps (add_finalizer fluent_bit_finalizer_name fb) refl refl).keeps w)
        ]
      ]

    -- Under its own namespace and name, the DaemonSet stays guarded.
    abbrev fluent_bit_of :
        FluentBit Resources Toleration Affinity
        → World
        → Option (FluentBit Resources Toleration Affinity)
    fluent_bit_of fb w = view.fluent_bit w fb.namespace fb.name

    deploy-fluent_bit :
        (fb : FluentBit Resources Toleration Affinity) (w : World)
        → fluent_bit_of fb
            (deploy client log_path namespaced fb
              (client.get_secret w fb.namespace fb.fluent_bit_config_name)
              w).0
          ≡ fluent_bit_of fb w
    deploy-fluent_bit fb w =
        (deploy-Keeps client (fluent_bit_of fb) fb log_path namespaced
            (install-Keeps client (fluent_bit_of fb) fb log_path namespaced
              (λ o. record {
                keeps = λ w'. ap (λ s. s.0) (local.create-seen w' fb.namespace fb.name o);
              })
              (λ c. record {
                keeps = λ w'. local.patch-fluent_bit w' fb.namespace fb.name fb.namespace fb.name c;
              }))
            (client.get_secret w fb.namespace fb.fluent_bit_config_name)).keeps
          w

    abbrev after : FluentBit Resources Toleration Affinity → World → World
    after fb w = (reconcile client log_path namespaced fb.namespace fb.name w).0

    after_read :
        (fb : FluentBit Resources Toleration Affinity) (w : World)
        → client.get_fluent_bit w fb.namespace fb.name ≡ ok fb
        → after fb w ≡ (reconcile_found client log_path namespaced (ok fb) w).0
    unfolding reconcile
    after_read fb w e = ap (λ r. (reconcile_found client log_path namespaced r w).0) e

    deploy-IsHeld :
        (fb : FluentBit Resources Toleration Affinity) (w : World)
        → view.fluent_bit w fb.namespace fb.name ≡ some fb
        → is_being_deleted fb ≡ false
        → has_finalizer fluent_bit_finalizer_name fb ≡ true
        → IsHeld (fluent_bit_of fb (reconcile_found client log_path namespaced (ok fb) w).0)
    unfolding reconcile_found
    deploy-IsHeld fb w there d h = rw (d, h) ((fb, deploy-fluent_bit fb w ∙ there, h))

    -- Neither a finalizer that is put on nor one that is not there changes a DaemonSet.
    unheld-daemon_set :
        (fb : FluentBit Resources Toleration Affinity) (w : World)
        → has_finalizer fluent_bit_finalizer_name fb ≡ false
        → view.daemon_set
            (reconcile_found client log_path namespaced (ok fb) w).0
            fb.namespace
            fb.name
          ≡ view.daemon_set w fb.namespace fb.name
    unfolding reconcile_found handle_finalizer put_finalizer
    unheld-daemon_set fb w h = elim (Bool-cases (is_being_deleted fb)) [
      | inl d ↦ rw (d, h) refl
      | inr d ↦
          rw (d, h)
            (ap (λ w'. view.daemon_set w' fb.namespace fb.name)
                (wrap-world _ ((put_finalizer client fb >> return false) w)
                  ∙ then_return-world (put_finalizer client fb) (λ _. return false) w false)
              ∙ sound.update-daemon_set w (add_finalizer fluent_bit_finalizer_name fb) fb.namespace
                  fb.name)
    ]

    -- The finalizer is on the one FluentBit of that name, or it is on none.
    unheld_none :
        (fb : FluentBit Resources Toleration Affinity) (s : Seen)
        → s.0 ≡ some fb
        → has_finalizer fluent_bit_finalizer_name fb ≡ false
        → IsGuarded s
        → s.1 ≡ none
    unheld_none fb s e h (inl g) = g
    unheld_none fb s e h (inr (f, e', h')) = absurd (
        true≢false (
          sym h'
          ∙ ap (has_finalizer fluent_bit_finalizer_name) (some-injective f fb (sym e' ∙ e))
          ∙ h))

    own-IsGuarded :
        (fb : FluentBit Resources Toleration Affinity) (w : World)
        → client.get_fluent_bit w fb.namespace fb.name ≡ ok fb
        → IsGuarded (see fb.namespace fb.name w)
        → IsGuarded (see fb.namespace fb.name (after fb w))
    own-IsGuarded fb w e g =
        let there = (local.found w fb.namespace fb.name fb e).0 in
        elim (Bool-cases (has_finalizer fluent_bit_finalizer_name fb)) [
          | inr h ↦ inl (
              ap (λ w'. view.daemon_set w' fb.namespace fb.name) (after_read fb w e)
              ∙ unheld-daemon_set fb w h
              ∙ unheld_none fb (see fb.namespace fb.name w) there h g)
          | inl h ↦ elim (Bool-cases (is_being_deleted fb)) [
            | inr d ↦ inr (
                subst (λ w'. IsHeld (fluent_bit_of fb w')) (sym (after_read fb w e))
                  (deploy-IsHeld fb w there d h))
            | inl d ↦ elim (reconcile_guards client view sound fb log_path namespaced w e d h) [
              | inl gone ↦ inl gone.1
              | inr same ↦ inr (fb, same ∙ there, h)
            ]
          ]
        ]

    at_key :
        (w : World) (ns n ns' n' : String) (fb : FluentBit Resources Toleration Affinity)
        → fb.namespace ≡ ns
        → fb.name ≡ n
        → ns' ≡ fb.namespace
        → n' ≡ fb.name
        → client.get_fluent_bit w ns n ≡ ok fb
        → IsGuarded (see fb.namespace fb.name w)
        → IsGuarded (see ns' n' (reconcile client log_path namespaced ns n w).0)
    at_key w ns n ns' n' fb i j p q e g =
        rw (p, q, sym i, sym j) (own-IsGuarded fb w (ap₂ (client.get_fluent_bit w) i j ∙ e) g)

    reconcile-IsGuarded :
        (w : World) (ns n ns' n' : String) (r : Result (FluentBit Resources Toleration Affinity))
        → client.get_fluent_bit w ns n ≡ r
        → ((i j : String) → IsGuarded (see i j w))
        → IsGuarded (see ns' n' (reconcile client log_path namespaced ns n w).0)
    unfolding reconcile reconcile_found
    reconcile-IsGuarded w ns n ns' n' (err (not_found s)) e g = rw e (g ns' n')
    reconcile-IsGuarded w ns n ns' n' (err (already_exists s)) e g = rw e (g ns' n')
    reconcile-IsGuarded w ns n ns' n' (err (other s)) e g = rw e (g ns' n')
    reconcile-IsGuarded w ns n ns' n' (err panicked) e g = rw e (g ns' n')
    reconcile-IsGuarded w ns n ns' n' (ok fb) e g =
        let (there, i, j) = local.found w ns n fb e in
        elim (same_key ns' n' fb.namespace fb.name) [
          | inl (p, q) ↦ at_key w ns n ns' n' fb i j p q e (g fb.namespace fb.name)
          | inr apart ↦ rw e (subst IsGuarded (sym (found-Keeps ns' n' fb apart w)) (g ns' n'))
        ]

    -- However reconciliations and what else happens to the cluster follow each other, and whatever calls fail, there is a
    -- DaemonSet only where a FluentBit of its namespace and name is there, with the finalizer: where there was none at
    -- first, where the client reads what is there, changes only what a call is about, and deletes soundly, and where
    -- nothing else makes a DaemonSet or takes the finalizer off.
    pub Reachable-IsGuarded :
        (w : World) → Reachable log_path namespaced w → (ns n : String) → IsGuarded (see ns n w)
    Reachable-IsGuarded w (empty _ none_yet) ns n = inl (none_yet ns n)
    Reachable-IsGuarded _ (reconciles w ns' n' r) ns n =
        reconcile-IsGuarded w ns' n' ns n (client.get_fluent_bit w ns' n') refl
          (Reachable-IsGuarded w r)
    Reachable-IsGuarded w' (outside w _ r o) ns n = elim (Reachable-IsGuarded w r ns n) [
      | inl g ↦ inl ((o ns n).0 g)
      | inr g ↦ inr ((o ns n).1 g)
    ]
