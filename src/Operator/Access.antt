-- ===== src/Operator/Access.antt =====
-- What RBAC objects allow, as the authorizer of Kubernetes reads them: a binding for the whole cluster gives its subjects
-- the rules of its role everywhere; a binding of a namespace gives them in that namespace, from a role of it or from one
-- of the whole cluster.
use fluentbit_operator.Prelude.{String, Bool, false, ◌&&◌, ◌||◌, ◌==◌, List, [], ◌∷◌}
use fluentbit_operator.Operator.Rbac.{
  PolicyRule, Role, Subject, Binding, Object, cluster_role, scoped_role, service_account,
  cluster_role_binding, scoped_role_binding,
}

pub record Request : Type 0 where
  pub verb : String
  pub api_group : String
  pub resource : String
  pub namespace : String

unfoldable pub any : {A : Type 0} → (A → Bool) → List A → Bool
any f [] = false
any f (x ∷ xs) = f x || any f xs

unfoldable pub rule_allows : Request → PolicyRule → Bool
unfolding any
rule_allows q r =
    any (λ v. q.verb == v) r.verbs
    && any (λ g. q.api_group == g) r.api_groups
    && any (λ s. q.resource == s) r.resources

unfoldable pub is_subject : String → String → Subject → Bool
is_subject name namespace s =
    s.kind == "ServiceAccount" && s.name == name && s.namespace == namespace

unfoldable pub refers : String → Role → Binding → Bool
refers kind r b = b.role_ref.kind == kind && b.role_ref.name == r.name

-- A role and a binding, for the service account of a name and a namespace
unfoldable pub pair_allows : String → String → Request → Object → Object → Bool
unfolding any rule_allows is_subject refers
pair_allows name namespace q (cluster_role r) (cluster_role_binding b) =
    refers "ClusterRole" r b
    && any (is_subject name namespace) b.subjects
    && any (rule_allows q) r.rules
pair_allows name namespace q (cluster_role r) (scoped_role_binding b) =
    refers "ClusterRole" r b
    && q.namespace == b.namespace
    && any (is_subject name namespace) b.subjects
    && any (rule_allows q) r.rules
pair_allows name namespace q (scoped_role r) (scoped_role_binding b) =
    refers "Role" r b
    && r.namespace == b.namespace
    && q.namespace == b.namespace
    && any (is_subject name namespace) b.subjects
    && any (rule_allows q) r.rules
pair_allows name namespace q (scoped_role r) (cluster_role_binding b) = false
pair_allows name namespace q (cluster_role r) (cluster_role s) = false
pair_allows name namespace q (cluster_role r) (scoped_role s) = false
pair_allows name namespace q (cluster_role r) (service_account s) = false
pair_allows name namespace q (scoped_role r) (cluster_role s) = false
pair_allows name namespace q (scoped_role r) (scoped_role s) = false
pair_allows name namespace q (scoped_role r) (service_account s) = false
pair_allows name namespace q (service_account a) o = false
pair_allows name namespace q (cluster_role_binding b) o = false
pair_allows name namespace q (scoped_role_binding b) o = false

-- Do the objects allow the request to the service account?
unfoldable pub allows : String → String → Request → List Object → Bool
unfolding any pair_allows
allows name namespace q objects =
    any (λ r. any (λ b. pair_allows name namespace q r b) objects) objects

-- To get pods, and nothing else
unfoldable pub is_get_pods : Request → Bool
is_get_pods q = q.verb == "get" && q.api_group == "" && q.resource == "pods"
