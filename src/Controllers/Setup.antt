-- ===== src/Controllers/Setup.antt =====
-- controllers/fluentbit_controller.go and fluentbitconfig_controller.go: the two `SetupWithManager`.
-- `IndexField` and `Complete` of the manager are a parameter. The name of a type stands for an object of the type.
use fluentbit_operator.Prelude.{
  String, ◌==◌, Bool, not, ◌||◌, Option, none, some, List, [], ◌∷◌, if◌then◌else◌,
}
use fluentbit_operator.Run.{Run, continue, ◌>>◌}

pub record OwnerReference : Type 0 where
  pub api_version : String
  pub kind : String
  pub name : String

abbrev pub owner_key : String
owner_key = ".metadata.controller"

abbrev pub api_gv_str : String
api_gv_str = "logging.kubesphere.io/v1alpha2"

-- What an object is found under, with the reference to its controller: the name of the owner, if it is of that kind.
unfoldable pub owner_name : String → Option OwnerReference → List String
owner_name kind none = []
owner_name kind (some owner) =
    if not (owner.api_version == api_gv_str) || not (owner.kind == kind)
    then []
    else owner.name ∷ []

-- The fields of the two reconcilers that the flags decide on
pub data Reconciler : Type 0 where
  config_reconciler : Bool → Reconciler
  fluent_bit_reconciler : String → Bool → Reconciler

-- What is given to the builder of a controller: `For`, `Owns` and `Watches`.
pub record Registration : Type 0 where
  pub of : String
  pub owns : List String
  pub watches : List String

abbrev pub config_registration : Registration
config_registration = record {
  of = "FluentBitConfig";
  owns = "Secret" ∷ [];
  watches = "Input" ∷ "Filter" ∷ "Output" ∷ "Parser" ∷ [];
}

abbrev pub fluent_bit_registration : Registration
fluent_bit_registration = record {
  of = "FluentBit";
  owns = "ServiceAccount" ∷ "DaemonSet" ∷ [];
  watches = [];
}

pub record Registry (World : Type 0) : Type 0 where
  pub index_field : String → String → (Option OwnerReference → List String) → Run World (Unit {0})
  pub complete : Registration → Reconciler → Run World (Unit {0})

module _ {World : Type 0} (registry : Registry World) where
  -- `FluentBitConfigReconciler.SetupWithManager`
  unfoldable pub setup_config : Reconciler → Run World (Unit {0})
  unfolding owner_name continue
  setup_config r = do
    registry.index_field "Secret" owner_key (owner_name "FluentBitConfig")
    registry.complete config_registration r

  -- `FluentBitReconciler.SetupWithManager`
  unfoldable pub setup_fluent_bit : Reconciler → Run World (Unit {0})
  unfolding owner_name continue
  setup_fluent_bit r = do
    registry.index_field "ServiceAccount" owner_key (owner_name "FluentBit")
    registry.index_field "DaemonSet" owner_key (owner_name "FluentBit")
    registry.complete fluent_bit_registration r
