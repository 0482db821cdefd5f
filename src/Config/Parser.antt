-- ===== src/Config/Parser.antt =====
-- api/fluentbitoperator/v1alpha2/parser_types.go
use Prim.Native.String.{◌++◌}
use mathlib.Core.Option as Opt
use fluentbit_operator.Prelude.{String, Option, List, [], ◌∷◌, sort_by, ◌▸◌}
use fluentbit_operator.Result.{Result, ok, ◌>>=◌}
use fluentbit_operator.Params.{line}
use fluentbit_operator.Plugins.{SecretLoader}
use fluentbit_operator.Plugins.Parser as Plugin
use fluentbit_operator.Plugins.Parser.{ParserPlugin, json, regex, lstv, logfmt}
use fluentbit_operator.Plugins.Parser.Json.{Json}
use fluentbit_operator.Plugins.Parser.Regex.{Regex}
use fluentbit_operator.Plugins.Parser.Lstv.{Lstv}
use fluentbit_operator.Plugins.Parser.Logfmt.{Logfmt}
use fluentbit_operator.Config.Write.{write_text, write_params, write_fields, write_items}

-- `Decorder`, as the source spells it
pub record Decorder : Type 0 where
  pub decode_field : String
  pub decode_field_as : String

pub record ParserSpec : Type 0 where
  pub json : Option Json
  pub regex : Option Regex
  pub ltsv : Option Lstv
  pub logfmt : Option Logfmt
  pub decoders : List Decorder

pub record Parser : Type 0 where
  pub name : String
  pub spec : ParserSpec

-- The fields of `ParserSpec` but the last, as `reflect` lists them.
abbrev pub fields : ParserSpec → List (Option ParserPlugin)
fields s =
    Opt.map json s.json ∷ Opt.map regex s.regex ∷ Opt.map lstv s.ltsv ∷ Opt.map logfmt s.logfmt ∷ []

-- The loop over the decoders at the end of `merge`.
unfoldable pub write_decoders : List Decorder → String → String
write_decoders [] buf = buf
write_decoders (d ∷ ds) buf = write_decoders ds (
    buf ▸ write_text "Decode_Field" d.decode_field ▸ write_text "Decode_Field_As" d.decode_field_as)

-- The closure `merge` of `Load`, on a plugin that is there.
unfoldable pub merge : SecretLoader → Parser → ParserPlugin → String → Result String
unfolding write_params write_decoders write_text Plugin.name Plugin.params
merge sl item p buf = do
  buf ←
      write_params (Plugin.params sl p)
        (buf ++ "[PARSER]\n" ++ line "Name" item.name ++ line "Format" (Plugin.name p))
  ok (write_decoders item.spec.decoders buf)

unfoldable pub write_item : SecretLoader → Parser → String → Result String
unfolding write_fields merge
write_item sl item = write_fields (merge sl item) (fields item.spec)

-- `Load`, on the items of the list
unfoldable pub load : SecretLoader → List Parser → Result String
unfolding write_items write_item sort_by
load sl items = write_items (write_item sl) (sort_by (λ item. item.name) items) ""
