-- ===== src/Controllers/Config/Stable.antt =====
-- The Secrets that Reconcile writes do not depend on the order in which the API lists inputs, filters, outputs and parsers.
use text.Mathlib.TextEquality.{IsScalar-prop}
use fluentbit_operator.Prelude.{
  ◌≡◌, refl, ap, inl, inr, ◌∙◌, String, Bool, List, [], ◌∷◌, GoMap, Perm, ∥∥₁_elim, sort_by,
  sort_by-permᴰ, if◌then◌else◌,
}
use fluentbit_operator.Result.{
  Result, ok, err, not_found, already_exists, other, panicked, ◌>>=◌, Result-cases,
}
use fluentbit_operator.Config.Input.{Input}
use fluentbit_operator.Config.Filter.{Filter}
use fluentbit_operator.Config.Output.{Output}
use fluentbit_operator.Config.Parser.{Parser}
use fluentbit_operator.Config.Render.{render_main_config, render_parser_config, render_lua_script}
use fluentbit_operator.Controllers.Config.Gather.{Alike, gather-Alike}
use fluentbit_operator.Config.Stable.{
  HasDistinctNames, render_main_config-perm, render_parser_config-perm,
}
use fluentbit_operator.Controllers.Config.{
  FluentBitConfig, Client, secret_data, list_matching, secret_loader, config_map_loader, rendered,
  patch_secret, write_secret, unless_error, reconcile_each, reconcile,
}

data_set : IsSet (Result (GoMap String))
data_set = hlevel IsScalar-prop

-- The lists of the objects that the API answers with.
pub record Lists (World Selector : Type 0) : Type 0 where
  pub inputs : World → String → Selector → Result (List Input)
  pub filters : World → String → Selector → Result (List Filter)
  pub outputs : World → String → Selector → Result (List Output)
  pub parsers : World → String → Selector → Result (List Parser)

module _ {World LabelSelector Selector : Type 0} where
  -- The client with these lists.
  unfoldable pub relist :
      Lists World Selector
      → Client World LabelSelector Selector
      → Client World LabelSelector Selector
  relist lists client = record client {
    list_inputs = lists.inputs;
    list_filters = lists.filters;
    list_outputs = lists.outputs;
    list_parsers = lists.parsers;
  }

  -- These are what the client lists, up to the order.
  unfoldable pub ListsAlike : Client World LabelSelector Selector → Lists World Selector → Type 0
  unfolding Alike
  ListsAlike client lists =
      (w : World) (namespace : String) (s : Selector)
      → Alike (λ (i : Input). i.name) (client.list_inputs w namespace s)
          (lists.inputs w namespace s)
        × Alike (λ (f : Filter). f.name) (client.list_filters w namespace s)
            (lists.filters w namespace s)
        × Alike (λ (o : Output). o.name) (client.list_outputs w namespace s)
            (lists.outputs w namespace s)
        × Alike (λ (p : Parser). p.name) (client.list_parsers w namespace s)
            (lists.parsers w namespace s)

module _ {World LabelSelector Selector : Type 0} (client : Client World LabelSelector Selector)
    (use_compression : Bool) (lists : Lists World Selector) (alike : ListsAlike client lists) where
  listed :
      {A : Type 0} (name : A → String) (list list' : String → Selector → Result (List A))
      (namespace : String) (l : LabelSelector)
      → ((s : Selector) → Alike name (list namespace s) (list' namespace s))
      → Alike name
          (list_matching client use_compression list namespace l)
          (list_matching client use_compression list' namespace l)
  unfolding list_matching Alike
  listed name list list' namespace l h = matched (client.as_selector l)
    where
      matched : (r : Result Selector) → Alike name (r >>= list namespace) (r >>= list' namespace)
      matched (ok s) = h s
      matched (err e) = refl

  -- What is made of the lists.
  abbrev made :
      World
      → FluentBitConfig LabelSelector
      → List Input
      → List Filter
      → List Output
      → List Parser
      → Result (GoMap String)
  made w cfg is fs os ps = do
    main_cfg ← render_main_config cfg.service (secret_loader client use_compression w cfg) is fs os
    parser_cfg ← render_parser_config (secret_loader client use_compression w cfg) ps
    main_cfg_data ← (if use_compression then client.compress_bytes main_cfg else ok main_cfg)
    scripts ←
        render_lua_script (config_map_loader client use_compression w cfg)
          (sort_by (λ f. f.name) fs)
    ok (secret_data main_cfg_data parser_cfg scripts)

  made-perm :
      (w : World) (cfg : FluentBitConfig LabelSelector) (is is' : List Input) (fs fs' : List Filter)
      (os os' : List Output) (ps ps' : List Parser)
      → HasDistinctNames (λ i. i.name) is
      → HasDistinctNames (λ f. f.name) fs
      → HasDistinctNames (λ o. o.name) os
      → HasDistinctNames (λ p. p.name) ps
      → Perm is is'
      → Perm fs fs'
      → Perm os os'
      → Perm ps ps'
      → made w cfg is fs os ps ≡ made w cfg is' fs' os' ps'
  made-perm w cfg is is' fs fs' os os' ps ps' di df do' dp pi pf po pp =
      let sl = secret_loader client use_compression w cfg in
      ∥∥₁_elim pf (data_set _ _) λ q.
        rw
          (
            render_main_config-perm cfg.service sl is is' fs fs' os os' di df do' pi pf po,
            render_parser_config-perm sl ps ps' dp pp,
            sort_by-permᴰ (λ f. f.name) q df,
          )
          refl

  rendered-relist :
      (w : World) (namespace : String) (cfg : FluentBitConfig LabelSelector)
      → rendered client use_compression w namespace cfg
        ≡ rendered (relist lists client) use_compression w namespace cfg
  unfolding rendered relist secret_loader config_map_loader ListsAlike
  rendered-relist w namespace cfg =
      gather-Alike (λ (i : Input). i.name) _ _ (λ (f : Filter). f.name) _ _ (λ (o : Output). o.name)
        _ _ (λ (p : Parser). p.name) _ _ (made w cfg) (made w cfg)
        (listed (λ (i : Input). i.name) (client.list_inputs w) (lists.inputs w) namespace
          cfg.input_selector (λ s. (alike w namespace s).0))
        (listed (λ (f : Filter). f.name) (client.list_filters w) (lists.filters w) namespace
          cfg.filter_selector (λ s. (alike w namespace s).1))
        (listed (λ (o : Output). o.name) (client.list_outputs w) (lists.outputs w) namespace
          cfg.output_selector (λ s. (alike w namespace s).2))
        (listed (λ (p : Parser). p.name) (client.list_parsers w) (lists.parsers w) namespace
          cfg.parser_selector (λ s. (alike w namespace s).3))
        (made-perm w cfg)

  patch_secret-relist :
      (w : World) (cfg : FluentBitConfig LabelSelector) (m : GoMap String) (r : Result (Unit {0}))
      → patch_secret client use_compression w cfg m r
        ≡ patch_secret (relist lists client) use_compression w cfg m r
  unfolding patch_secret relist
  patch_secret-relist w cfg m (err e) = refl
  patch_secret-relist w cfg m (ok u) = refl

  write_secret-relist :
      (w : World) (cfg : FluentBitConfig LabelSelector) (r : Result (GoMap String))
      → write_secret client use_compression w cfg r
        ≡ write_secret (relist lists client) use_compression w cfg r
  unfolding write_secret relist
  write_secret-relist w cfg (err e) = refl
  write_secret-relist w cfg (ok m) =
      patch_secret-relist w cfg m (client.set_controller_reference cfg)

  unless_error-relist :
      (r r' : World × Result (Unit {0})) (f g : World → World × Result (Unit {0}))
      → r ≡ r'
      → ((w : World) → f w ≡ g w)
      → unless_error client use_compression r f
        ≡ unless_error (relist lists client) use_compression r' g
  unfolding unless_error
  unless_error-relist (w, err e) r' f g p h = rw⁻¹ p refl
  unless_error-relist (w, ok u) r' f g p h = rw⁻¹ p (h w)

  reconcile_each-relist :
      (w : World) (namespace : String) (cfgs : List (FluentBitConfig LabelSelector))
      → reconcile_each client use_compression w namespace cfgs
        ≡ reconcile_each (relist lists client) use_compression w namespace cfgs
  unfolding reconcile_each
  reconcile_each-relist w namespace [] = refl
  reconcile_each-relist w namespace (cfg ∷ cfgs) =
      unless_error-relist _ _ _ _
        (ap (write_secret client use_compression w cfg) (rendered-relist w namespace cfg)
          ∙ write_secret-relist w cfg _)
        (λ w'. reconcile_each-relist w' namespace cfgs)

  -- A Reconcile does the same, and returns the same, where the API lists the inputs, filters, outputs and parsers in
  -- another order, if those that it lists have distinct names.
  pub reconcile-relist :
      (w : World) (namespace : String)
      → reconcile client use_compression w namespace
        ≡ reconcile (relist lists client) use_compression w namespace
  unfolding reconcile relist
  reconcile-relist w namespace = elim (Result-cases (client.list_configs w namespace)) [
    | inl (cfgs, p) ↦ rw (reconcile, p) (reconcile_each-relist w namespace cfgs)
    | inr (not_found t, p) ↦ rw (reconcile, p) refl
    | inr (already_exists t, p) ↦ rw (reconcile, p) refl
    | inr (other t, p) ↦ rw (reconcile, p) refl
    | inr (panicked, p) ↦ rw (reconcile, p) refl
  ]
