-- ===== src/Config/Render.antt =====
-- `RenderMainConfig`, `RenderParserConfig` and `RenderLuaScript` of
-- api/fluentbitoperator/v1alpha2/fluentbitconfig_types.go
use Prim.Native.String.{◌++◌}
use fluentbit_operator.Prelude.{
  String, ◌==◌, not, ◌&&◌, Option, none, some, List, [], ◌∷◌, sort_by, if◌then◌else◌,
}
use fluentbit_operator.Result.{Result, ok, ◌>>=◌}
use fluentbit_operator.Params.{to_string}
use fluentbit_operator.Plugins.{SecretLoader, ConfigMapLoader, load_config_map}
use fluentbit_operator.Plugins.Filter.Lua.{Lua}
use fluentbit_operator.Config.Service
use fluentbit_operator.Config.Service.{Service}
use fluentbit_operator.Config.Input
use fluentbit_operator.Config.Filter
use fluentbit_operator.Config.Filter.{FilterItem}
use fluentbit_operator.Config.Output
use fluentbit_operator.Config.Parser

-- `if cfg.Spec.Service != nil { … }`
unfoldable pub render_service : Option Service → Result String
unfolding to_string Service.params
render_service none = ok ""
render_service (some s) = do text ← to_string (some (Service.params s)); ok ("[Service]\n" ++ text)

abbrev pub null_output : String
null_output = "[Output]\n    Name    null\n    Match   *"

-- `if inputSections != "" && outputSections == "" { outputSections = … }`
unfoldable pub default_output : String → String → String
default_output inputs outputs = if not (inputs == "") && outputs == "" then null_output else outputs

-- `RenderMainConfig`; of the config it reads `Spec.Service`.
unfoldable pub render_main_config :
    Option Service
    → SecretLoader
    → List Input.Input
    → List Filter.Filter
    → List Output.Output
    → Result String
unfolding render_service Input.load Filter.load Output.load default_output
render_main_config service sl inputs filters outputs = do
  head ← render_service service
  input_sections ← Input.load sl inputs
  filter_sections ← Filter.load sl filters
  output_sections ← Output.load sl outputs
  ok (head ++ input_sections ++ filter_sections ++ default_output input_sections output_sections)

-- `RenderParserConfig`
unfoldable pub render_parser_config : SecretLoader → List Parser.Parser → Result String
unfolding Parser.load
render_parser_config sl parsers = Parser.load sl parsers

pub record Script : Type 0 where
  pub name : String
  pub content : String

-- The body of the inner loop of `RenderLuaScript`, in front of what the rest of the loops collects.
unfoldable pub script_of :
    ConfigMapLoader → Option Lua → Result (List Script) → Result (List Script)
unfolding load_config_map
script_of cl none rest = rest
script_of cl (some l) rest = do
  content ← load_config_map cl l.script
  scripts ← rest
  ok (record { name = l.script.key; content = content } ∷ scripts)

unfoldable pub item_scripts :
    ConfigMapLoader → List FilterItem → Result (List Script) → Result (List Script)
unfolding script_of
item_scripts cl [] rest = rest
item_scripts cl (p ∷ ps) rest = script_of cl p.lua (item_scripts cl ps rest)

unfoldable pub collect_scripts : ConfigMapLoader → List Filter.Filter → Result (List Script)
unfolding item_scripts
collect_scripts cl [] = ok []
collect_scripts cl (f ∷ fs) = item_scripts cl f.spec.filter_items (collect_scripts cl fs)

-- `RenderLuaScript`
unfoldable pub render_lua_script : ConfigMapLoader → List Filter.Filter → Result (List Script)
unfolding collect_scripts sort_by
render_lua_script cl filters = do
  scripts ← collect_scripts cl filters
  ok (sort_by (λ s. s.name) scripts)
