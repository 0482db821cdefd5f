-- ===== src/Tests/Helpers.antt =====
-- Instances of the theorems on parameter lists, the helpers and the back-off delay.
use mathlib.Core.List
use mathlib.Core.List.Permᴰ
use fluentbit_operator.Tests.Names.{two_names}
use fluentbit_operator.Prelude.{
  ◌≡◌, refl, ℕ, String, ◌==◌, false, none, some, [], ◌∷◌, arith, pos, GoMap, ◌^◌, if◌then◌else◌,
}
use fluentbit_operator.Result.{ok}
use fluentbit_operator.Params.{Kvs, insert_string_map, merge, to_string}
use fluentbit_operator.Params.Sane.{IsAligned, AnyKey}
use fluentbit_operator.Params.Order.{insert_string_map-perm}
use fluentbit_operator.Params.Render.{entries, print_entries, to_string-eq-print, entries-merge}
use fluentbit_operator.Utils.{contain_string, remove_string, concat_string}
use fluentbit_operator.Utils.Laws.{join, concat_string-eq-join, contain-remove}
use fluentbit_operator.Watcher.Backoff.{
  delay_time, intended_delay, max_delay, delay_time-intended, delay_time-vanishes,
}

abbrev two_kvs : Kvs
two_kvs = record { keys = "Name" ∷ "Match" ∷ []; values = "null" ∷ "*" ∷ [] }

two_kvs-IsAligned : IsAligned AnyKey two_kvs
two_kvs-IsAligned = record { aligned = (tt, (tt, tt)) }

abbrev headers : GoMap String
headers = ("X-B", "2") ∷ ("X-A", "1") ∷ []

insert_string_map-perm_example :
    insert_string_map none headers two_kvs
    ≡ insert_string_map none (("X-A", "1") ∷ ("X-B", "2") ∷ []) two_kvs
insert_string_map-perm_example =
    insert_string_map-perm none headers (("X-A", "1") ∷ ("X-B", "2") ∷ []) two_kvs
      ∣ Permᴰ.swap refl refl ∣₁ (two_names "X-B" "X-A" refl)

to_string-eq-print_example : to_string (some two_kvs) ≡ ok (print_entries (entries (some two_kvs)))
to_string-eq-print_example = to_string-eq-print (some two_kvs) two_kvs-IsAligned

entries-merge_example :
    entries (some (merge two_kvs two_kvs))
    ≡ List.◌++◌ (entries (some two_kvs)) (entries (some two_kvs))
entries-merge_example = entries-merge two_kvs two_kvs two_kvs-IsAligned

concat_string-eq-join_example : concat_string ("a" ∷ "b," ∷ []) "," ≡ join "," ("a" ∷ "b," ∷ [])
concat_string-eq-join_example = concat_string-eq-join ("a" ∷ "b," ∷ []) ","

contain-remove_example :
    contain_string (remove_string ("x" ∷ "y" ∷ "x" ∷ []) "x") "y"
    ≡ (if "x" == "y" then false else contain_string ("x" ∷ "y" ∷ "x" ∷ []) "y")
contain-remove_example = contain-remove ("x" ∷ "y" ∷ "x" ∷ []) "x" "y"

-- What an amd64 makes of the conversion.
abbrev converted : ℕ → ℕ
converted n = 2 ^ 63

delay_time-intended_example : delay_time converted 9 ≡ pos max_delay
unfolding intended_delay
delay_time-intended_example = delay_time-intended converted 9 (omega arith)

delay_time-vanishes_example : delay_time converted 60 ≡ pos 0
delay_time-vanishes_example = delay_time-vanishes converted 60 (omega arith) (omega arith)
