-- ===== src/Config/Input.antt =====
-- api/fluentbitoperator/v1alpha2/input_types.go
use Prim.Native.String.{◌++◌}
use mathlib.Core.Option as Opt
use fluentbit_operator.Prelude.{String, Option, none, List, [], ◌∷◌, sort_by, ◌▸◌}
use fluentbit_operator.Result.{Result}
use fluentbit_operator.Params.{line}
use fluentbit_operator.Plugins.{SecretLoader}
use fluentbit_operator.Plugins.Input as Plugin
use fluentbit_operator.Plugins.Input.{InputPlugin, dummy, tail, systemd}
use fluentbit_operator.Plugins.Input.Dummy.{Dummy}
use fluentbit_operator.Plugins.Input.Tail.{Tail}
use fluentbit_operator.Plugins.Input.Systemd.{Systemd}
use fluentbit_operator.Config.Write.{write_text, write_params, write_fields, write_items}

pub record InputSpec : Type 0 where
  pub alias : String
  pub dummy : Option Dummy
  pub tail : Option Tail
  pub systemd : Option Systemd

pub record Input : Type 0 where
  pub name : String
  pub spec : InputSpec

-- The fields of `InputSpec` as `reflect` lists them; a string is no `Plugin`.
abbrev pub fields : InputSpec → List (Option InputPlugin)
fields s = none ∷ Opt.map dummy s.dummy ∷ Opt.map tail s.tail ∷ Opt.map systemd s.systemd ∷ []

-- The closure `merge` of `Load`, on a plugin that is there.
unfoldable pub merge : SecretLoader → Input → InputPlugin → String → Result String
unfolding write_text write_params Plugin.name Plugin.params
merge sl item p buf =
    buf ++ "[Input]\n" ++ line "Name" (Plugin.name p)
    ▸ write_text "Alias" item.spec.alias
    ▸ write_params (Plugin.params sl p)

unfoldable pub write_item : SecretLoader → Input → String → Result String
unfolding write_fields merge
write_item sl item = write_fields (merge sl item) (fields item.spec)

-- `Load`, on the items of the list
unfoldable pub load : SecretLoader → List Input → Result String
unfolding write_items write_item sort_by
load sl items = write_items (write_item sl) (sort_by (λ item. item.name) items) ""
