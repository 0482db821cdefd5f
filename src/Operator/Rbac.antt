-- ===== src/Operator/Rbac.antt =====
-- The RBAC objects of pkg/operator/daemonset.go: `MakeRBACObjects` and `MakeScopedRBACObjects`. The object of
-- a whole cluster has the empty namespace. A constructor tells the Go types apart.
use fluentbit_operator.Prelude.{String, Option, none, List, [], ◌∷◌}

pub record PolicyRule : Type 0 where
  pub verbs : List String
  pub api_groups : List String
  pub resources : List String

-- `rbacv1.ClusterRole` and `rbacv1.Role`
pub record Role : Type 0 where
  pub name : String
  pub namespace : String
  pub rules : List PolicyRule

-- with the name of the FluentBit that controls it, if one does
pub record ServiceAccount : Type 0 where
  pub name : String
  pub namespace : String
  pub controller : Option String

pub record Subject : Type 0 where
  pub kind : String
  pub name : String
  pub namespace : String

pub record RoleRef : Type 0 where
  pub api_group : String
  pub kind : String
  pub name : String

-- `rbacv1.ClusterRoleBinding` and `rbacv1.RoleBinding`
pub record Binding : Type 0 where
  pub name : String
  pub namespace : String
  pub subjects : List Subject
  pub role_ref : RoleRef

pub data Object : Type 0 where
  cluster_role scoped_role : Role → Object
  service_account : ServiceAccount → Object
  cluster_role_binding scoped_role_binding : Binding → Object

abbrev get_pods : List PolicyRule
get_pods = (record { verbs = "get" ∷ []; api_groups = "" ∷ []; resources = "pods" ∷ [] }) ∷ []

abbrev account : String → String → ServiceAccount
account name namespace = record { name = name; namespace = namespace; controller = none }

abbrev subjects_of : String → String → List Subject
subjects_of name namespace =
    (record { kind = "ServiceAccount"; name = name; namespace = namespace }) ∷ []

abbrev role_ref_of : String → RoleRef
role_ref_of kind = record {
  api_group = "rbac.authorization.k8s.io";
  kind = kind;
  name = "kubesphere:fluent-bit";
}

-- `MakeRBACObjects`
unfoldable pub make_rbac_objects : String → String → Role × ServiceAccount × Binding
make_rbac_objects name namespace = (
  record { name = "kubesphere:fluent-bit"; namespace = ""; rules = get_pods },
  account name namespace,
  record {
    name = "kubesphere:fluent-bit";
    namespace = "";
    subjects = subjects_of name namespace;
    role_ref = role_ref_of "ClusterRole";
  },
)

-- `MakeScopedRBACObjects`
unfoldable pub make_scoped_rbac_objects : String → String → Role × ServiceAccount × Binding
make_scoped_rbac_objects name namespace = (
  record { name = "kubesphere:fluent-bit"; namespace = namespace; rules = get_pods },
  account name namespace,
  record {
    name = "kubesphere:fluent-bit";
    namespace = namespace;
    subjects = subjects_of name namespace;
    role_ref = role_ref_of "Role";
  },
)
