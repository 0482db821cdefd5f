-- ===== src/Manager.antt =====
-- cmd/manager/main.go: what the flags and the environment file make of the options of the manager and of the
-- controllers. Registering the controllers and running them are calls of controller-runtime.
pub mod Access
pub mod Namespaces
pub mod Start
use Prim.Native.String
use Prim.Native.String.{◌++◌}
use fluentbit_operator.Prelude.{
  String, Bool, true, false, not, ◌==◌, Option, none, some, List, [], ◌∷◌, GoMap, lookup, split,
  if◌then◌else◌,
}
use fluentbit_operator.Result.{Result, ok, err}

pub record Flags : Type 0 where
  pub watch_namespaces : String
  pub metrics_addr : String
  pub enable_leader_election : Bool
  pub use_compression : Bool

-- `opts.Namespace` and `opts.NewCache`: the namespaces that the cache of the manager holds.
pub data Scope : Type 0 where
  cluster_scope : Scope
  one_namespace : String → Scope
  several_namespaces : List String → Scope

pub record Options : Type 0 where
  pub metrics_bind_address : String
  pub leader_election : Bool
  pub scope : Scope

-- The fields of the two reconcilers that main sets
pub record Settings : Type 0 where
  pub use_compression : Bool
  pub container_log_real_path : String
  pub namespaced : Bool

-- An environment file that can be read gives a path, whether or not it has the variable.
unfoldable pub log_path : Result (GoMap String) → String
unfolding lookup
log_path (ok envs) = value_of (lookup "CONTAINER_ROOT_DIR" envs) ++ "/containers"
  where
    value_of : Option String → String
    value_of (some v) = v
    value_of none = ""
log_path (err e) = ""

unfoldable pub is_namespaced : Flags → Bool
is_namespaced flags = not (flags.watch_namespaces == "")

-- There is at least one part.
unfoldable pub scope_of : List String → Scope
scope_of [] = cluster_scope
scope_of (n ∷ []) = one_namespace n
scope_of (n ∷ m ∷ ns) = several_namespaces (n ∷ m ∷ ns)

unfoldable pub options : Flags → Options
unfolding split scope_of is_namespaced
options flags = record {
  metrics_bind_address = flags.metrics_addr;
  leader_election = flags.enable_leader_election;
  scope =
      if is_namespaced flags then scope_of (split "," flags.watch_namespaces) else cluster_scope;
}

unfoldable pub settings : Flags → Result (GoMap String) → Settings
unfolding log_path is_namespaced
settings flags env = record {
  use_compression = flags.use_compression;
  container_log_real_path = log_path env;
  namespaced = is_namespaced flags;
}
