-- ===== src/Prelude/Split.antt =====
-- `strings.Split` at one character, and `strings.Trim(s, " ")`.
use Prim.Native.Char.{Char, code}
use Prim.Native.String.{String}
use mathlib.Core.Bool.{◌&&◌}
use mathlib.Core.List.{List, [], ◌∷◌}
use text.Mathlib.Text.{◌==◌}
use fluentbit_operator.Prelude.Tests.{eqb, if◌then◌else◌}

-- A character in front of the first part.
unfoldable pub put_first : Char → List String → List String
put_first c [] = (String.◌∷◌ c "") ∷ []
put_first c (w ∷ ws) = (String.◌∷◌ c w) ∷ ws

unfoldable pub split : Char → String → List String
unfolding put_first
split sep String.[] = "" ∷ []
split sep (String.◌∷◌ c s) =
    let rest = split sep s in if eqb (code c) (code sep) then "" ∷ rest else put_first c rest

-- `strings.TrimLeft` and `strings.TrimRight` of one character
unfoldable pub trim_left : Char → String → String
trim_left d String.[] = ""
trim_left d (String.◌∷◌ c s) = if eqb (code c) (code d) then trim_left d s else String.◌∷◌ c s

unfoldable pub trim_right : Char → String → String
trim_right d String.[] = ""
trim_right d (String.◌∷◌ c s) =
    let rest = trim_right d s in
    if eqb (code c) (code d) && rest == "" then "" else String.◌∷◌ c rest

unfoldable pub trim_spaces : String → String
unfolding trim_left trim_right
trim_spaces s = trim_right " " (trim_left " " s)
