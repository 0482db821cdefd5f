-- ===== src/Utils.antt =====
-- pkg/utils/utils.go
pub mod Laws
use Prim.Native.String.{◌++◌}
use fluentbit_operator.Prelude.{
  String, ◌==◌, Bool, true, false, List, [], ◌∷◌, trim_suffix, if◌then◌else◌,
}

-- `ContainString`
unfoldable pub contain_string : List String → String → Bool
contain_string [] s = false
contain_string (item ∷ items) s = if item == s then true else contain_string items s

-- `RemoveString`
unfoldable pub remove_string : List String → String → List String
remove_string [] s = []
remove_string (item ∷ items) s =
    let rest = remove_string items s in if item == s then rest else item ∷ rest

-- the loop of `ConcatString`
unfoldable pub concat_loop : String → List String → String → String
concat_loop sep [] ns = ns
concat_loop sep (s ∷ ss) ns = concat_loop sep ss (ns ++ s ++ sep)

-- `ConcatString`
unfoldable pub concat_string : List String → String → String
unfolding concat_loop trim_suffix
concat_string [] sep = ""
concat_string (s ∷ ss) sep = trim_suffix (concat_loop sep (s ∷ ss) "") sep
