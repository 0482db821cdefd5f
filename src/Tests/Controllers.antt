-- ===== src/Tests/Controllers.antt =====
-- Instances of the theorems on the controllers, at a cluster that is a table of Secrets.
use mathlib.Core.List
use mathlib.Core.List.Permᴰ
use text.Mathlib.TextPositions.{eq_refl}
use fluentbit_operator.Prelude.{
  ◌≡◌, ◌≢◌, refl, String, ◌==◌, true, false, ◌&&◌, Option, none, some, List, [], ◌∷◌, if◌then◌else◌,
  arith, eq_iff, All, lookup,
}
use fluentbit_operator.Result.{Result, ok, err, not_found}
use fluentbit_operator.Plugins.{ConfigMapLoader}
use fluentbit_operator.Plugins.Runs.{plugin_runs}
use fluentbit_operator.Config.Example.{input_item, filter_item, http_output, service}
use fluentbit_operator.Config.Filter.{Filter}
use fluentbit_operator.Config.Render.{render_lua_script, Script}
use fluentbit_operator.Controllers.Config.{FluentBitConfig, Body, Client, reconcile, secret_data}
use fluentbit_operator.Controllers.Config.Scripts.{HoldsScripts, render_lua_script-HoldsScripts}
use fluentbit_operator.Controllers.Config.Written.{
  Stores, IsWritten, reconcile-IsWritten, reconcile-keeps,
}
use fluentbit_operator.Controllers.Config.Data.{lookup-secret_data, last_script}
use fluentbit_operator.Controllers.Config.Gather.{Alike}
use fluentbit_operator.Controllers.Config.Stable.{Lists, ListsAlike, relist, reconcile-relist}
use fluentbit_operator.Tests.Names.{one_name, two_names, not_among_two}

abbrev lua_filter : Filter
lua_filter = record {
  name = "lua";
  spec = record {
    match = "*";
    match_regex = "";
    filter_items =
        record {
          grep = none;
          record_modifier = none;
          kubernetes = none;
          modify = none;
          nest = none;
          parser = none;
          lua = some (record {
            script = record { name = "scripts"; key = "systemd.lua" };
            call = "add_time";
            type_int_key = [];
            protected_mode = none;
            time_as_table = true;
          });
          throttle = none;
          rewrite_tag = none;
        }
        ∷ [];
  };
}

abbrev config_maps : ConfigMapLoader
config_maps = record {
  get = λ namespace name. ok (("systemd.lua", "return 1\n") ∷ []);
  namespace = "fluent";
}

abbrev scripts : List Script
scripts = record { name = "systemd.lua"; content = "return 1" } ∷ []

scripts_test : render_lua_script config_maps (lua_filter ∷ []) ≡ ok scripts
unfolding render_lua_script plugin_runs
scripts_test = refl

render_lua_script-HoldsScripts_example :
    HoldsScripts config_maps (secret_data "main" "parsers" scripts) (lua_filter ∷ [])
render_lua_script-HoldsScripts_example =
    render_lua_script-HoldsScripts config_maps (lua_filter ∷ []) scripts "main" "parsers"
      scripts_test (one_name "systemd.lua")

abbrev pub Table : Type 0
Table = String → String → Option Body

abbrev table_put : Table → String → String → Result Body → Table × Result (Unit {0})
table_put t namespace name (ok b) =
    (λ ns n. if namespace == ns && name == n then some b else t ns n, ok tt)
table_put t namespace name (err e) = (t, err e)

abbrev pub config : String → FluentBitConfig Unit
config name = record {
  name = name;
  namespace = "fluent";
  service = some service;
  input_selector = tt;
  filter_selector = tt;
  output_selector = tt;
  parser_selector = tt;
}

abbrev pub cluster : Client Table Unit Unit
cluster = record {
  list_configs = λ t namespace. ok (config "a" ∷ config "b" ∷ []);
  list_inputs = λ t namespace selector. ok (input_item ∷ []);
  list_filters = λ t namespace selector. ok (lua_filter ∷ filter_item ∷ []);
  list_outputs = λ t namespace selector. ok (http_output ∷ []);
  list_parsers = λ t namespace selector. ok [];
  get_secret = λ t namespace name. err (not_found name);
  get_config_map = λ t namespace name. ok (("systemd.lua", "return 1\n") ∷ []);
  as_selector = λ s. ok s;
  set_controller_reference = λ cfg. ok tt;
  compress_bytes = λ s. ok s;
  create_or_patch = table_put;
}

table_written :
    (t : Table) (namespace name : String) (r : Result Body)
    → (table_put t namespace name r).1 ≡ ok tt
    → (b : Body) × (r ≡ ok b) × ((table_put t namespace name r).0 namespace name ≡ some b)
table_written t namespace name (ok b) h = (b, refl, rw (eq_refl namespace, eq_refl name) refl)
table_written t namespace name (err e) h = cc

table_kept :
    (t : Table) (namespace name other : String) (r : Result Body)
    → other ≢ name
    → (table_put t namespace name r).0 namespace other ≡ t namespace other
table_kept t namespace name other (ok b) d = ground (arith, eq_iff name other)
table_kept t namespace name other (err e) d = refl

cluster-Stores : Stores cluster (λ t. t)
cluster-Stores = record { written = table_written; kept = table_kept }

abbrev empty : Table
empty namespace name = none

reconcile_test : (reconcile cluster false empty "fluent").1 ≡ ok tt
unfolding reconcile plugin_runs
reconcile_test = refl

reconcile-IsWritten_example :
    All
      (IsWritten cluster false (λ t. t) (reconcile cluster false empty "fluent").0 "fluent")
      (config "a" ∷ config "b" ∷ [])
reconcile-IsWritten_example =
    reconcile-IsWritten cluster false (λ t. t) cluster-Stores empty "fluent"
      (config "a" ∷ config "b" ∷ []) refl (refl, (refl, tt)) (two_names "a" "b" refl) reconcile_test

reconcile-keeps_example : (reconcile cluster false empty "fluent").0 "fluent" "c" ≡ none
reconcile-keeps_example =
    reconcile-keeps cluster false (λ t. t) cluster-Stores empty "fluent" "c"
      (config "a" ∷ config "b" ∷ []) refl (refl, (refl, tt)) (not_among_two "c" "a" "b" refl refl)

lookup-secret_data_example :
    lookup "parsers.conf" (secret_data "main" "parsers" scripts) ≡ some "parsers"
unfolding last_script
lookup-secret_data_example = lookup-secret_data "parsers.conf" "main" "parsers" scripts

-- The same objects, with the filters in another order.
abbrev other_lists : Lists Table Unit
other_lists = record {
  inputs = cluster.list_inputs;
  filters = λ t namespace selector. ok (filter_item ∷ lua_filter ∷ []);
  outputs = cluster.list_outputs;
  parsers = cluster.list_parsers;
}

other_lists-ListsAlike : ListsAlike cluster other_lists
unfolding Alike ListsAlike
other_lists-ListsAlike t namespace selector = (
  (one_name "input0", ∣ Permᴰ.refl _ ∣₁),
  (two_names "lua" "filter0" refl, ∣ Permᴰ.swap refl refl ∣₁),
  (one_name "http_output_0", ∣ Permᴰ.refl _ ∣₁),
  (List.Nodup-nil, ∣ Permᴰ.refl _ ∣₁),
)

reconcile-relist_example :
    reconcile cluster false empty "fluent"
    ≡ reconcile (relist other_lists cluster) false empty "fluent"
reconcile-relist_example =
    reconcile-relist cluster false other_lists other_lists-ListsAlike empty "fluent"
