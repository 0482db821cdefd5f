-- ===== src/Prelude/Assoc.antt =====
-- A Go map with string keys, as the list of its entries in the order of one iteration over it.
use Prim.Native.String.{String}
use mathlib.Core.Option.{Option, none, some}
use mathlib.Core.List.{List, [], ◌∷◌}
use text.Mathlib.Text.{◌==◌}
use fluentbit_operator.Prelude.Tests.{if◌then◌else◌}

abbrev pub GoMap {ℓ} : Type ℓ → Type ℓ
GoMap V = List (String × V)

-- `v, ok := m[k]`
unfoldable pub lookup {ℓ} : {V : Type ℓ} → String → GoMap V → Option V
lookup k [] = none
lookup k ((j, v) ∷ m) = if j == k then some v else lookup k m
