-- ===== src/Controllers/Config/Written.antt =====
-- What a reconciliation leaves in the cluster.
use mathlib.Core.Path.{subst}
use mathlib.Core.List.{Nodup-cons, mem-cons}
use mathlib.Core.Logic.Or
use fluentbit_operator.Prelude.{
  ◌≡◌, ◌≢◌, refl, sym, ap, ◌∙◌, String, Bool, Option, some, List, [], ◌∷◌, GoMap, All, map, Nodup,
  Mem,
}
use fluentbit_operator.Result.{Result, ok, err, bind_ok, ok-injective}
use fluentbit_operator.Controllers.Config.{
  FluentBitConfig, Body, Client, rendered, patch_secret, write_secret, unless_error, reconcile_each,
  reconcile,
}
use fluentbit_operator.Config.Stable.{HasDistinctNames}

-- What the client documents of `CreateOrPatch`: where it reports success, the Secret is there as the
-- function that it was given makes it, which has not failed; another Secret stays as it is.
pub record Stores {World LabelSelector Selector : Type 0}
    (client : Client World LabelSelector Selector) (stored : World → String → String → Option Body)
    : Type 0 where
  pub written :
      (w : World) (namespace name : String) (r : Result Body)
      → (client.create_or_patch w namespace name r).1 ≡ ok tt
      → (b : Body) × (r ≡ ok b)
        × (stored (client.create_or_patch w namespace name r).0 namespace name ≡ some b)
  pub kept :
      (w : World) (namespace name other : String) (r : Result Body)
      → other ≢ name
      → stored (client.create_or_patch w namespace name r).0 namespace other
        ≡ stored w namespace other

module _ {World LabelSelector Selector : Type 0} (client : Client World LabelSelector Selector)
    (use_compression : Bool) (stored : World → String → String → Option Body) where
  -- The Secret of a FluentBitConfig holds what was rendered for it at some moment.
  abbrev pub IsWritten : World → String → FluentBitConfig LabelSelector → Type 0
  IsWritten w namespace cfg =
      (v : World) × (m : GoMap String) × (rendered client use_compression v namespace cfg ≡ ok m)
      × (stored w namespace cfg.name ≡ some (record { data_map = m; owner = cfg.name }))

  module _ (lawful : Stores client stored) where
    patch_secret-kept :
        (w : World) (cfg : FluentBitConfig LabelSelector) (m : GoMap String) (r : Result (Unit {0}))
        (other : String)
        → other ≢ cfg.name
        → stored (patch_secret client use_compression w cfg m r).0 cfg.namespace other
          ≡ stored w cfg.namespace other
    unfolding patch_secret
    patch_secret-kept w cfg m (err e) other d = refl
    patch_secret-kept w cfg m (ok u) other d = lawful.kept w cfg.namespace cfg.name other _ d

    write_secret-kept :
        (w : World) (cfg : FluentBitConfig LabelSelector) (r : Result (GoMap String))
        (other : String)
        → other ≢ cfg.name
        → stored (write_secret client use_compression w cfg r).0 cfg.namespace other
          ≡ stored w cfg.namespace other
    unfolding write_secret
    write_secret-kept w cfg (err e) other d = refl
    write_secret-kept w cfg (ok m) other d =
        patch_secret-kept w cfg m (client.set_controller_reference cfg) other d

    patch_secret-written :
        (w : World) (cfg : FluentBitConfig LabelSelector) (m : GoMap String) (r : Result (Unit {0}))
        → (patch_secret client use_compression w cfg m r).1 ≡ ok tt
        → stored (patch_secret client use_compression w cfg m r).0 cfg.namespace cfg.name
          ≡ some (record { data_map = m; owner = cfg.name })
    unfolding patch_secret
    patch_secret-written w cfg m (err e) h = cc
    patch_secret-written w cfg m (ok u) h =
        let (b, e, p) = lawful.written w cfg.namespace cfg.name _ h in
        let (u', e', q) = bind_ok (client.set_controller_reference cfg) _ b e in
        p ∙ ap some (sym (ok-injective _ b q))

    write_secret-written :
        (w : World) (cfg : FluentBitConfig LabelSelector) (r : Result (GoMap String))
        → (write_secret client use_compression w cfg r).1 ≡ ok tt
        → (m : GoMap String) × (r ≡ ok m)
          × (stored (write_secret client use_compression w cfg r).0 cfg.namespace cfg.name
              ≡ some (record { data_map = m; owner = cfg.name }))
    unfolding write_secret
    write_secret-written w cfg (err e) h = cc
    write_secret-written w cfg (ok m) h =
        (m, refl, patch_secret-written w cfg m (client.set_controller_reference cfg) h)

    unless_error-ok :
        (p : World × Result (Unit {0})) (rest : World → World × Result (Unit {0}))
        → (unless_error client use_compression p rest).1 ≡ ok tt
        → (p.1 ≡ ok tt) × (unless_error client use_compression p rest ≡ rest p.0)
    unfolding unless_error
    unless_error-ok (w, err e) rest h = cc
    unless_error-ok (w, ok u) rest h = (refl, refl)

    -- The FluentBitConfigs of a list are in the namespace that is reconciled.
    abbrev pub InNamespace : String → List (FluentBitConfig LabelSelector) → Type 0
    InNamespace namespace cfgs =
        All (λ (cfg : FluentBitConfig LabelSelector). cfg.namespace ≡ namespace) cfgs

    unless_error-kept :
        (namespace other : String) (s : Option Body) (p : World × Result (Unit {0}))
        (rest : World → World × Result (Unit {0}))
        → stored p.0 namespace other ≡ s
        → ((w : World) → stored (rest w).0 namespace other ≡ stored w namespace other)
        → stored (unless_error client use_compression p rest).0 namespace other ≡ s
    unfolding unless_error
    unless_error-kept namespace other s (w, err e) rest h k = h
    unless_error-kept namespace other s (w, ok u) rest h k = k w ∙ h

    reconcile_each-kept :
        (w : World) (namespace : String) (cfgs : List (FluentBitConfig LabelSelector))
        (other : String)
        → InNamespace namespace cfgs
        → ¬ Mem other (map (λ cfg. cfg.name) cfgs)
        → stored (reconcile_each client use_compression w namespace cfgs).0 namespace other
          ≡ stored w namespace other
    unfolding reconcile_each
    reconcile_each-kept w namespace [] other i d = refl
    reconcile_each-kept w namespace (cfg ∷ cfgs) other (e, i) d =
        let made = rendered client use_compression w namespace cfg in
        let first = write_secret client use_compression w cfg made in
        unless_error-kept namespace other (stored w namespace other) first
          (λ w'. reconcile_each client use_compression w' namespace cfgs)
          (subst (λ ns. stored first.0 ns other ≡ stored w ns other) e
            (write_secret-kept w cfg made other (λ s. d (mem-cons.1 (Or.inl s)))))
          (λ w'. reconcile_each-kept w' namespace cfgs other i (λ m. d (mem-cons.1 (Or.inr m))))

    reconcile-eq :
        (w : World) (namespace : String) (cfgs : List (FluentBitConfig LabelSelector))
        → client.list_configs w namespace ≡ ok cfgs
        → reconcile client use_compression w namespace
          ≡ reconcile_each client use_compression w namespace cfgs
    unfolding reconcile
    reconcile-eq w namespace cfgs e = rw (reconcile, e) refl

    reconcile_each-IsWritten :
        (w : World) (namespace : String) (cfgs : List (FluentBitConfig LabelSelector))
        → InNamespace namespace cfgs
        → Nodup (map (λ cfg. cfg.name) cfgs)
        → (reconcile_each client use_compression w namespace cfgs).1 ≡ ok tt
        → All (IsWritten (reconcile_each client use_compression w namespace cfgs).0 namespace) cfgs
    unfolding reconcile_each
    reconcile_each-IsWritten w namespace [] i d h = tt
    reconcile_each-IsWritten w namespace (cfg ∷ cfgs) (e, i) d h =
        let first =
          write_secret client use_compression w cfg
            (rendered client use_compression w namespace cfg) in
        let rest = reconcile_each client use_compression first.0 namespace cfgs in
        let (e', q) = unless_error-ok first _ h in
        let h' = sym (ap (λ (p : World × Result (Unit {0})). p.1) q) ∙ h in
        let (m, r, there) = write_secret-written w cfg _ e' in
        let (new, d') = (Nodup-cons {a = cfg.name} {l = map (λ c. c.name) cfgs}).0 d in
        subst (λ (p : World × Result (Unit {0})). All (IsWritten p.0 namespace) (cfg ∷ cfgs))
          (sym q)
          (
            (
              w,
              m,
              r,
              reconcile_each-kept first.0 namespace cfgs cfg.name i new
                  ∙ subst
                      (λ ns.
                        stored first.0 ns cfg.name
                        ≡ some (record { data_map = m; owner = cfg.name }))
                      e there,
            ),
            reconcile_each-IsWritten first.0 namespace cfgs i d' h',
          )

    -- Where the client stores as it documents, after a reconciliation without an error, the Secret of each FluentBitConfig that was listed, where
    -- they have distinct names and are in the namespace that is reconciled, holds what was rendered for it.
    pub reconcile-IsWritten :
        (w : World) (namespace : String) (cfgs : List (FluentBitConfig LabelSelector))
        → client.list_configs w namespace ≡ ok cfgs
        → InNamespace namespace cfgs
        → HasDistinctNames (λ cfg. cfg.name) cfgs
        → (reconcile client use_compression w namespace).1 ≡ ok tt
        → All (IsWritten (reconcile client use_compression w namespace).0 namespace) cfgs
    reconcile-IsWritten w namespace cfgs e i d h =
        let p = reconcile-eq w namespace cfgs e in
        subst (λ (p : World × Result (Unit {0})). All (IsWritten p.0 namespace) cfgs) (sym p)
          (reconcile_each-IsWritten w namespace cfgs i d
            (sym (ap (λ (p : World × Result (Unit {0})). p.1) p) ∙ h))

    -- Where the client stores as it documents, whatever a reconciliation returns, a Secret of the namespace that has the name of no FluentBitConfig
    -- that was listed stays as it is, where these are in the namespace that is reconciled.
    pub reconcile-keeps :
        (w : World) (namespace other : String) (cfgs : List (FluentBitConfig LabelSelector))
        → client.list_configs w namespace ≡ ok cfgs
        → InNamespace namespace cfgs
        → ¬ Mem other (map (λ cfg. cfg.name) cfgs)
        → stored (reconcile client use_compression w namespace).0 namespace other
          ≡ stored w namespace other
    reconcile-keeps w namespace other cfgs e i d =
        ap (λ (p : World × Result (Unit {0})). stored p.0 namespace other)
          (reconcile-eq w namespace cfgs e)
        ∙ reconcile_each-kept w namespace cfgs other i d
