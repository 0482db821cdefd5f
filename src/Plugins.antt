-- ===== src/Plugins.antt =====
-- api/fluentbitoperator/v1alpha2/plugins: the loaders of secrets and of ConfigMaps, the section of
-- options for TLS, and the two statements on secrets that the output plugins share.
-- The API client is a parameter: `get` is its `Get` of a Secret, or of a ConfigMap, by namespace and
-- name, with the map of its `Data` or the error.
pub mod Tls
pub mod Input
pub mod Filter
pub mod Output
pub mod Parser
pub mod Rules
pub mod Runs
pub mod Secrets
pub mod Sane
use Prim.Native.String.{◌++◌}
use fluentbit_operator.Prelude.{
  String, Option, none, some, List, [], ◌∷◌, GoMap, lookup, trim_suffix,
}
use fluentbit_operator.Result.{Result, ok, err, not_found, ◌>>=◌}
use fluentbit_operator.Params.{Kvs, insert}
use fluentbit_operator.Utils.{concat_string}

-- `Secret` with its `ValueFrom.SecretKeyRef`
pub record Secret : Type 0 where
  pub name : String
  pub key : String

pub record SecretLoader : Type 0 where
  pub get : String → String → Result (GoMap String)
  pub namespace : String

-- `v, ok := data[key]` and the two returns behind it
unfoldable pub data_value : String → Option String → Result String
unfolding trim_suffix
data_value key none = err (not_found ("The key " ++ key ++ " is not found."))
data_value key (some v) = ok (trim_suffix v "\n")

-- `LoadSecret`
unfoldable pub load_secret : SecretLoader → Secret → Result String
unfolding data_value lookup
load_secret sl s = do values ← sl.get sl.namespace s.name; data_value s.key (lookup s.key values)

-- `v1.ConfigMapKeySelector`
pub record ConfigMapKeySelector : Type 0 where
  pub name : String
  pub key : String

pub record ConfigMapLoader : Type 0 where
  pub get : String → String → Result (GoMap String)
  pub namespace : String

-- `LoadConfigMap`
unfoldable pub load_config_map : ConfigMapLoader → ConfigMapKeySelector → Result String
unfolding data_value lookup
load_config_map cl selector = do
  values ← cl.get cl.namespace selector.name
  data_value selector.key (lookup selector.key values)

-- `if x != nil { v, err := sl.LoadSecret(*x); if err != nil { return nil, err }; kvs.Insert(key, v) }`
unfoldable pub insert_secret : SecretLoader → String → Option Secret → Kvs → Result Kvs
unfolding insert load_secret
insert_secret sl key none kvs = ok kvs
insert_secret sl key (some s) kvs = do v ← load_secret sl s; ok (insert key v kvs)

-- `if xs != nil && len(xs) > 0 { kvs.Insert(key, utils.ConcatString(xs, sep)) }`
unfoldable pub insert_joined : String → String → List String → Kvs → Kvs
unfolding insert concat_string
insert_joined sep key [] kvs = kvs
insert_joined sep key (x ∷ xs) kvs = insert key (concat_string (x ∷ xs) sep) kvs
