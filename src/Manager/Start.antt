-- ===== src/Manager/Start.antt =====
-- cmd/manager/main.go: the calls of main, up to the end of the manager. `NewManager` and `Start` are a parameter, as
-- are the calls of the two `SetupWithManager`. The result is the status that the process exits with.
use fluentbit_operator.Prelude.{◌≡◌, refl, sym, ap, ◌∙◌, String, ℕ, Option, List, ◌∷◌, GoMap}
use fluentbit_operator.Result.{Result, ok, err, not_found, already_exists, other, panicked}
use fluentbit_operator.Run.{Run, continue, ◌>>◌}
use fluentbit_operator.Run.Laws.{then_ok}
use fluentbit_operator.Controllers.Setup.{
  OwnerReference, Reconciler, config_reconciler, fluent_bit_reconciler, Registration, Registry,
  config_registration, fluent_bit_registration, owner_key, owner_name, setup_config,
  setup_fluent_bit,
}
use fluentbit_operator.Manager.{Flags, Options, options, settings}

-- Every error ends in `os.Exit(1)`; a panic ends the process with status 2.
unfoldable pub exit_status : Result (Unit {0}) → ℕ
exit_status (ok _) = 0
exit_status (err (not_found e)) = 1
exit_status (err (already_exists e)) = 1
exit_status (err (other e)) = 1
exit_status (err panicked) = 2

exit_status-ok : (r : Result (Unit {0})) → exit_status r ≡ 0 → r ≡ ok tt
unfolding exit_status
exit_status-ok (ok tt) e = refl
exit_status-ok (err (not_found t)) e = absurd cc
exit_status-ok (err (already_exists t)) e = absurd cc
exit_status-ok (err (other t)) e = absurd cc
exit_status-ok (err panicked) e = absurd cc

pub record Runtime (World : Type 0) : Type 0 where
  pub registry : Registry World
  pub new_manager : Options → Run World (Unit {0})
  pub start : Run World (Unit {0})

-- The names that the flags and the environment file give the two reconcilers
unfoldable pub reconcilers : Flags → Result (GoMap String) → Reconciler × Reconciler
unfolding settings
reconcilers flags env =
    let s = settings flags env in
    (
      config_reconciler s.use_compression,
      fluent_bit_reconciler s.container_log_real_path s.namespaced,
    )

module _ {World : Type 0} (runtime : Runtime World) where
  unfoldable pub run_manager : Flags → Result (GoMap String) → Run World (Unit {0})
  unfolding options reconcilers setup_config setup_fluent_bit continue
  run_manager flags env = do
    runtime.new_manager (options flags)
    setup_config runtime.registry (reconcilers flags env).0
    setup_fluent_bit runtime.registry (reconcilers flags env).1
    runtime.start

  unfoldable pub main : Flags → Result (GoMap String) → World → World × ℕ
  unfolding run_manager exit_status
  main flags env w = let r = run_manager flags env w in (r.0, exit_status r.1)

  -- What is seen of the controllers that a world holds: only a `Complete` that returns no error adds one.
  pub record Registers (registered : World → List Reconciler) : Type 0 where
    pub made : (o : Options) (w : World) → registered (runtime.new_manager o w).0 ≡ registered w
    pub indexed :
        (type key : String) (f : Option OwnerReference → List String) (w : World)
        → registered (runtime.registry.index_field type key f w).0 ≡ registered w
    pub completed :
        (g : Registration) (r : Reconciler) (w : World)
        → (runtime.registry.complete g r w).1 ≡ ok tt
        → registered (runtime.registry.complete g r w).0 ≡ r ∷ registered w

  module _ (registered : World → List Reconciler) (lawful : Registers registered) where
    -- What a call that returns no error does to the controllers
    abbrev Does : Run World (Unit {0}) → (List Reconciler → List Reconciler) → Type 0
    Does call f =
        (w : World) (u : Unit {0}) → (call w).1 ≡ ok u → registered (call w).0 ≡ f (registered w)

    first_Does :
        (call rest : Run World (Unit {0})) (f : List Reconciler → List Reconciler)
        → Does call f
        → (w : World) (u : Unit {0}) → ((call >> rest) w).1 ≡ ok u
        → (v : World) × (rest v ≡ (call >> rest) w) × (registered v ≡ f (registered w))
    first_Does call rest f d w u e =
        let (t, e', same) = then_ok call (λ _. rest) w u e in ((call w).0, sym same, d w t e')

    then_Does :
        (call rest : Run World (Unit {0})) (f g : List Reconciler → List Reconciler)
        → Does call f
        → Does rest g
        → Does (call >> rest) (λ l. g (f l))
    then_Does call rest f g d d' w u e =
        let (v, same, at) = first_Does call rest f d w u e in
        ap (λ p. registered p.0) (sym same) ∙ d' v u (ap (λ p. p.1) same ∙ e) ∙ ap g at

    module _ (r : Reconciler) where
      setup_config-Does : Does (setup_config runtime.registry r) (λ l. r ∷ l)
      unfolding setup_config
      setup_config-Does =
          then_Does _ (runtime.registry.complete config_registration r) (λ l. l) (λ l. r ∷ l)
            (λ w u e. lawful.indexed "Secret" owner_key (owner_name "FluentBitConfig") w)
            (λ w u e. lawful.completed config_registration r w (rw e refl))

      setup_fluent_bit-Does : Does (setup_fluent_bit runtime.registry r) (λ l. r ∷ l)
      unfolding setup_fluent_bit
      setup_fluent_bit-Does =
          then_Does _
            (runtime.registry.index_field "DaemonSet" owner_key (owner_name "FluentBit")
              >> runtime.registry.complete fluent_bit_registration r)
            (λ l. l) (λ l. r ∷ l)
            (λ w u e. lawful.indexed "ServiceAccount" owner_key (owner_name "FluentBit") w)
            (then_Does _ (runtime.registry.complete fluent_bit_registration r) (λ l. l) (λ l. r ∷ l)
              (λ w u e. lawful.indexed "DaemonSet" owner_key (owner_name "FluentBit") w)
              (λ w u e. lawful.completed fluent_bit_registration r w (rw e refl)))

    -- Where only a Complete without an error adds a controller, and main ends with status 0, the manager has been
    -- started, with both controllers, which have the settings of the flags and of the environment file, and it has
    -- returned without an error.
    pub main-registered :
        (flags : Flags) (env : Result (GoMap String)) (w : World)
        → (main flags env w).1 ≡ 0
        → (v : World) × (runtime.start v ≡ ((main flags env w).0, ok tt))
          × (registered v ≡ (reconcilers flags env).1 ∷ (reconcilers flags env).0 ∷ registered w)
    unfolding main run_manager
    main-registered flags env w e =
        let (c, f) = reconcilers flags env in
        let e0 = exit_status-ok _ e in
        let (w1, s1, l1) =
          first_Does (runtime.new_manager (options flags))
            (setup_config runtime.registry c
              >> (setup_fluent_bit runtime.registry f >> runtime.start))
            (λ l. l) (λ w u e. lawful.made _ w) w tt e0 in
        let (w2, s2, l2) =
          first_Does (setup_config runtime.registry c)
            (setup_fluent_bit runtime.registry f >> runtime.start) (λ l. c ∷ l)
            (setup_config-Does c) w1 tt (ap (λ p. p.1) s1 ∙ e0) in
        let (w3, s3, l3) =
          first_Does (setup_fluent_bit runtime.registry f) runtime.start (λ l. f ∷ l)
            (setup_fluent_bit-Does f) w2 tt (ap (λ p. p.1) (s2 ∙ s1) ∙ e0) in
        (
          w3,
          s3 ∙ s2 ∙ s1 ∙ ap (λ r. ((run_manager flags env w).0, r)) e0,
          l3 ∙ ap (λ l. f ∷ l) (l2 ∙ ap (λ l. c ∷ l) l1),
        )
