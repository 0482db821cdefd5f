-- ===== src/Params.antt =====
-- api/fluentbitoperator/v1alpha2/plugins/params/kvs.go, and the shapes in which the `Params` methods
-- of the plugins call it. A method that changes the receiver returns the new value.
pub mod Sane
pub mod Words
pub mod Order
pub mod Render
use Prim.Native.String
use mathlib.Core.List.{◌++◌}
use mathlib.Core.Option as Opt
use fluentbit_operator.Prelude.{
  String, ◌==◌, Option, none, some, List, [], ◌∷◌, map, GoMap, lookup, sort_by, if◌then◌else◌,
}
use fluentbit_operator.Result.{Result, ok, err, panicked}

pub record Kvs : Type 0 where
  pub keys : List String
  pub values : List String

-- `NewKvs`
abbrev pub new_kvs : Kvs
new_kvs = record { keys = []; values = [] }

-- `Insert`
unfoldable pub insert : String → String → Kvs → Kvs
insert key value kvs = record { keys = kvs.keys ++ key ∷ []; values = kvs.values ++ value ∷ [] }

-- `Merge`
unfoldable pub merge : Kvs → Kvs → Kvs
merge tail kvs = record { keys = kvs.keys ++ tail.keys; values = kvs.values ++ tail.values }

abbrev pub Transform : Type 0
Transform = String → String → String × String

-- `m[k]` of a Go map, "" for a missing key
unfoldable pub map_get : GoMap String → String → String
unfolding lookup
map_get m k = Opt.get_or (lookup k m) ""

-- The body of the loop of `InsertStringMap`; `f` may be nil.
unfoldable pub insert_entry : Option Transform → String → String → Kvs → Kvs
unfolding insert
insert_entry none k v kvs = insert k v kvs
insert_entry (some f) k v kvs = let (k', v') = f k v in insert k' v' kvs

-- The loop of `InsertStringMap` over the sorted keys.
unfoldable pub insert_keys : Option Transform → GoMap String → List String → Kvs → Kvs
unfolding insert_entry map_get
insert_keys f m [] kvs = kvs
insert_keys f m (k ∷ ks) kvs = insert_keys f m ks (insert_entry f k (map_get m k) kvs)

abbrev pub entry_key {ℓ} : {V : Type ℓ} → String × V → String
entry_key (k, v) = k

-- `InsertStringMap`. A map with no entries leaves the loop no key.
unfoldable pub insert_string_map : Option Transform → GoMap String → Kvs → Kvs
unfolding insert_keys sort_by
insert_string_map f m kvs = insert_keys f m (sort_by (λ k. k) (map entry_key m)) kvs

-- One line, `fmt.Sprintf("    %s    %s\n", key, value)`.
abbrev pub line : String → String → String
line k v = String.◌++◌ "    " (String.◌++◌ k (String.◌++◌ "    " (String.◌++◌ v "\n")))

-- The loop of `String`, which indexes `values` by the positions of `keys`.
unfoldable pub write_lines : List String → List String → String → Result String
write_lines [] values buf = ok buf
write_lines (k ∷ ks) [] buf = err panicked
write_lines (k ∷ ks) (v ∷ vs) buf = write_lines ks vs (String.◌++◌ buf (line k v))

-- `String`, which may be called on nil.
unfoldable pub to_string : Option Kvs → Result String
unfolding write_lines
to_string none = ok ""
to_string (some kvs) = write_lines kvs.keys kvs.values ""

-- `if x != "" { kvs.Insert(key, x) }`
unfoldable pub insert_text : String → String → Kvs → Kvs
unfolding insert
insert_text key x kvs = if x == "" then kvs else insert key x kvs

-- `if x != nil { kvs.Insert(key, fmt.Sprint(*x)) }`
unfoldable pub insert_some : {A : Type 0} → (A → String) → String → Option A → Kvs → Kvs
unfolding insert
insert_some show key none kvs = kvs
insert_some show key (some x) kvs = insert key (show x) kvs

-- `for _, x := range xs { kvs.Insert(key, x) }`
unfoldable pub insert_each : String → List String → Kvs → Kvs
unfolding insert
insert_each key [] kvs = kvs
insert_each key (x ∷ xs) kvs = insert_each key xs (insert key x kvs)
