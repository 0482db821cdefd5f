-- ===== src/Controllers/Config.antt =====
-- controllers/fluentbitconfig_controller.go: `Reconcile` writes, for each FluentBitConfig of the
-- namespace, a Secret with the rendered files.
-- The API client, `LabelSelectorAsSelector`, `SetControllerReference`, `CreateOrPatch` and the compression
-- of bytes are a parameter, `Client`. The function that `CreateOrPatch` is called with puts data and owner
-- into the Secret whatever it finds there, so that its result stands for it.
-- `RenderMainConfig` sorts the items of the list of filters in place, and `RenderLuaScript` goes through
-- the same items afterwards.
pub mod Data
pub mod Gather
pub mod Scripts
pub mod Stable
pub mod Written
use fluentbit_operator.Prelude.{
  String, ◌==◌, Bool, Option, List, [], ◌∷◌, GoMap, sort_by, if◌then◌else◌,
}
use fluentbit_operator.Result.{Error, Result, ok, err, not_found, ◌>>=◌}
use fluentbit_operator.Plugins.{SecretLoader, ConfigMapLoader}
use fluentbit_operator.Config.Service.{Service}
use fluentbit_operator.Config.Input.{Input}
use fluentbit_operator.Config.Filter.{Filter}
use fluentbit_operator.Config.Output.{Output}
use fluentbit_operator.Config.Parser.{Parser}
use fluentbit_operator.Config.Render.{
  Script, render_main_config, render_parser_config, render_lua_script,
}

-- `FluentBitConfig`, with its `Spec`
pub record FluentBitConfig (LabelSelector : Type 0) : Type 0 where
  pub name : String
  pub namespace : String
  pub service : Option Service
  pub input_selector : LabelSelector
  pub filter_selector : LabelSelector
  pub output_selector : LabelSelector
  pub parser_selector : LabelSelector

-- What `Reconcile` sets of a Secret: its data, and the object that owns it.
pub record Body : Type 0 where
  pub data_map : GoMap String
  pub owner : String

pub record Client (World LabelSelector Selector : Type 0) : Type 0 where
  pub list_configs : World → String → Result (List (FluentBitConfig LabelSelector))
  pub list_inputs : World → String → Selector → Result (List Input)
  pub list_filters : World → String → Selector → Result (List Filter)
  pub list_outputs : World → String → Selector → Result (List Output)
  pub list_parsers : World → String → Selector → Result (List Parser)
  pub get_secret : World → String → String → Result (GoMap String)
  pub get_config_map : World → String → String → Result (GoMap String)
  pub as_selector : LabelSelector → Result Selector
  pub set_controller_reference : FluentBitConfig LabelSelector → Result (Unit {0})
  pub compress_bytes : String → Result String
  pub create_or_patch : World → String → String → Result Body → World × Result (Unit {0})

-- `m[k] = v`
unfoldable pub set : String → String → GoMap String → GoMap String
set k v [] = (k, v) ∷ []
set k v ((j, u) ∷ m) = let rest = set k v m in if j == k then (k, v) ∷ m else (j, u) ∷ rest

-- `for _, s := range scripts { sec.Data[s.Name] = []byte(s.Content) }`
unfoldable pub add_scripts : List Script → GoMap String → GoMap String
unfolding set
add_scripts [] m = m
add_scripts (s ∷ ss) m = add_scripts ss (set s.name s.content m)

-- `sec.Data`
unfoldable pub secret_data : String → String → List Script → GoMap String
unfolding add_scripts
secret_data main_cfg parser_cfg scripts =
    add_scripts scripts (("fluent-bit.conf", main_cfg) ∷ ("parsers.conf", parser_cfg) ∷ [])

module _ {World LabelSelector Selector : Type 0} (client : Client World LabelSelector Selector)
    (use_compression : Bool) where
  -- `LabelSelectorAsSelector` and `List`
  unfoldable pub list_matching :
      {A : Type 0}
      → (String → Selector → Result (List A))
      → String
      → LabelSelector
      → Result (List A)
  list_matching list namespace label_selector = do
    selector ← client.as_selector label_selector
    list namespace selector

  unfoldable pub secret_loader : World → FluentBitConfig LabelSelector → SecretLoader
  secret_loader w cfg = record { get = client.get_secret w; namespace = cfg.namespace }

  unfoldable pub config_map_loader : World → FluentBitConfig LabelSelector → ConfigMapLoader
  config_map_loader w cfg = record { get = client.get_config_map w; namespace = cfg.namespace }

  -- The body of the loop down to `RenderLuaScript`: what goes into the Secret.
  unfoldable pub rendered : World → String → FluentBitConfig LabelSelector → Result (GoMap String)
  unfolding list_matching secret_loader config_map_loader render_main_config render_parser_config
      render_lua_script secret_data
  rendered w namespace cfg = do
    inputs ← list_matching (client.list_inputs w) namespace cfg.input_selector
    filters ← list_matching (client.list_filters w) namespace cfg.filter_selector
    outputs ← list_matching (client.list_outputs w) namespace cfg.output_selector
    parsers ← list_matching (client.list_parsers w) namespace cfg.parser_selector
    main_cfg ← render_main_config cfg.service (secret_loader w cfg) inputs filters outputs
    parser_cfg ← render_parser_config (secret_loader w cfg) parsers
    main_cfg_data ← (if use_compression then client.compress_bytes main_cfg else ok main_cfg)
    scripts ← render_lua_script (config_map_loader w cfg) (sort_by (λ f. f.name) filters)
    ok (secret_data main_cfg_data parser_cfg scripts)

  -- From the result of the first `SetControllerReference` on.
  unfoldable pub patch_secret :
      World
      → FluentBitConfig LabelSelector
      → GoMap String
      → Result (Unit {0})
      → World × Result (Unit {0})
  patch_secret w cfg m (err e) = (w, err e)
  patch_secret w cfg m (ok _) =
      client.create_or_patch w cfg.namespace cfg.name
        (do _ ← client.set_controller_reference cfg; ok (record { data_map = m; owner = cfg.name }))

  -- The body of the loop from the result of its first part on.
  unfoldable pub write_secret :
      World → FluentBitConfig LabelSelector → Result (GoMap String) → World × Result (Unit {0})
  unfolding patch_secret
  write_secret w cfg (err e) = (w, err e)
  write_secret w cfg (ok m) = patch_secret w cfg m (client.set_controller_reference cfg)

  -- `if err … { return ctrl.Result{}, err }`
  unfoldable pub unless_error :
      World × Result (Unit {0}) → (World → World × Result (Unit {0})) → World × Result (Unit {0})
  unless_error (w, err e) rest = (w, err e)
  unless_error (w, ok _) rest = rest w

  -- The loop, which an error ends.
  unfoldable pub reconcile_each :
      World → String → List (FluentBitConfig LabelSelector) → World × Result (Unit {0})
  unfolding rendered write_secret unless_error
  reconcile_each w namespace [] = (w, ok tt)
  reconcile_each w namespace (cfg ∷ cfgs) =
      unless_error (write_secret w cfg (rendered w namespace cfg))
        (λ w'. reconcile_each w' namespace cfgs)

  -- `Reconcile`
  unfoldable pub reconcile : World → String → World × Result (Unit {0})
  unfolding reconcile_each
  reconcile w namespace = elim (client.list_configs w namespace) [
    | ok cfgs ↦ reconcile_each w namespace cfgs
    | err (not_found _) ↦ (w, ok tt)
    | err e ↦ (w, err e)
  ]
