-- ===== src/Controllers/Config/Scripts.antt =====
-- Every script that a Lua filter names is in the Secret.
use mathlib.Core.Path.{subst}
use fluentbit_operator.Prelude.{
  ◌≡◌, sym, ◌∙◌, String, Option, none, some, List, [], ◌∷◌, GoMap, lookup, sort_by-perm, All,
  All-map, All-perm,
}
use fluentbit_operator.Result.{Result, ok, bind_ok, ok-injective}
use fluentbit_operator.Plugins.{ConfigMapLoader, load_config_map}
use fluentbit_operator.Plugins.Filter.Lua.{Lua}
use fluentbit_operator.Config.Filter.{Filter, FilterItem}
use fluentbit_operator.Config.Render.{
  Script, script_of, item_scripts, collect_scripts, render_lua_script,
}
use fluentbit_operator.Config.Stable.{HasDistinctNames}
use fluentbit_operator.Controllers.Config.{secret_data}
use fluentbit_operator.Controllers.Config.Data.{last_script_own, lookup-secret_data}

-- The script that a filter names, if it is a Lua filter, can be loaded, and the data holds its content
-- under its key.
abbrev pub HoldsScript : ConfigMapLoader → GoMap String → Option Lua → Type 0
HoldsScript cl m none = Unit
HoldsScript cl m (some l) =
    (content : String) × (load_config_map cl l.script ≡ ok content)
    × (lookup l.script.key m ≡ some content)

abbrev pub HoldsScripts : ConfigMapLoader → GoMap String → List Filter → Type 0
HoldsScripts cl m filters =
    All (λ (f : Filter). All (λ (i : FilterItem). HoldsScript cl m i.lua) f.spec.filter_items)
      filters

module _ (cl : ConfigMapLoader) (m : GoMap String) where
  abbrev Held : Script → Type 0
  Held s = lookup s.name m ≡ some s.content

  script_of-Held :
      (o : Option Lua) (rest : Result (List Script)) (ss : List Script)
      → script_of cl o rest ≡ ok ss
      → All Held ss
      → HoldsScript cl m o × ((ss' : List Script) × (rest ≡ ok ss') × All Held ss')
  unfolding script_of
  script_of-Held none rest ss e h = (tt, (ss, e, h))
  script_of-Held (some l) rest ss e h =
      let (content, loaded, e') = bind_ok (load_config_map cl l.script) _ ss e in
      let (ss', er, e'') = bind_ok rest _ ss e' in
      let (p, hs) = subst (All Held) (sym (ok-injective _ ss e'')) h in
      ((content, loaded, p), (ss', er, hs))

  item_scripts-Held :
      (is : List FilterItem) (rest : Result (List Script)) (ss : List Script)
      → item_scripts cl is rest ≡ ok ss
      → All Held ss
      → All (λ (i : FilterItem). HoldsScript cl m i.lua) is
        × ((ss' : List Script) × (rest ≡ ok ss') × All Held ss')
  unfolding item_scripts
  item_scripts-Held [] rest ss e h = (tt, (ss, e, h))
  item_scripts-Held (i ∷ is) rest ss e h =
      let (p, (ss', e', h')) = script_of-Held i.lua (item_scripts cl is rest) ss e h in
      let (ps, r) = item_scripts-Held is rest ss' e' h' in ((p, ps), r)

  collect_scripts-Held :
      (fs : List Filter) (ss : List Script)
      → collect_scripts cl fs ≡ ok ss
      → All Held ss
      → HoldsScripts cl m fs
  unfolding collect_scripts
  collect_scripts-Held [] ss e h = tt
  collect_scripts-Held (f ∷ fs) ss e h =
      let (ps, (ss', e', h')) =
        item_scripts-Held f.spec.filter_items (collect_scripts cl fs) ss e h in
      (ps, collect_scripts-Held fs ss' e' h')

-- Where the scripts that `RenderLuaScript` returns have distinct names, every script that a filter
-- names is in the Secret with the content of its ConfigMap.
pub render_lua_script-HoldsScripts :
    (cl : ConfigMapLoader) (filters : List Filter) (ss : List Script) (main_cfg parser_cfg : String)
    → render_lua_script cl filters ≡ ok ss
    → HasDistinctNames (λ s. s.name) ss
    → HoldsScripts cl (secret_data main_cfg parser_cfg ss) filters
unfolding render_lua_script
render_lua_script-HoldsScripts cl filters ss main_cfg parser_cfg e d =
    let (scripts, es, e') = bind_ok (collect_scripts cl filters) _ ss e in
    let held =
      All-map (λ s h. lookup-secret_data s.name main_cfg parser_cfg ss ∙ h _) ss
        (last_script_own ss d) in
    let sorted =
      subst (All (Held cl (secret_data main_cfg parser_cfg ss))) (sym (ok-injective _ ss e'))
        held in
    collect_scripts-Held cl _ filters scripts es
      (All-perm _ (sort_by-perm (λ s. s.name) scripts) sorted)
