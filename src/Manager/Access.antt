-- ===== src/Manager/Access.antt =====
-- What the service account of a FluentBit may do, by the flags of the manager.
use text.Mathlib.TextPositions.{eq_refl}
use fluentbit_operator.Prelude.{
  ◌≡◌, refl, ◌∙◌, String, Bool, true, false, not, ◌&&◌, ◌||◌, ◌==◌, List, [], ◌∷◌, GoMap,
  if◌then◌else◌,
}
use fluentbit_operator.Result.{Result}
use fluentbit_operator.FluentBit.{FluentBit}
use fluentbit_operator.Operator.Rbac.{Object, make_rbac_objects, make_scoped_rbac_objects}
use fluentbit_operator.Operator.Access.{
  Request, any, allows, pair_allows, rule_allows, is_subject, refers, is_get_pods,
}
use fluentbit_operator.Controllers.FluentBit.{Client, access_objects}
use fluentbit_operator.Manager.{Flags, log_path, is_namespaced, settings}

abbrev pub objects_of : Object × Object × Object → List Object
objects_of (a, b, c) = a ∷ b ∷ c ∷ []

or-false : (b : Bool) → b || false ≡ b
or-false true = refl
or-false false = refl

and-true : (b : Bool) → b && true ≡ b
and-true true = refl
and-true false = refl

by_scope : (all here get : Bool) → (if not all then here && get else get) ≡ get && (all || here)
by_scope true here true = refl
by_scope true here false = refl
by_scope false true true = refl
by_scope false true false = refl
by_scope false false true = refl
by_scope false false false = refl

module _ {World Resources Toleration Affinity : Type 0}
    (client : Client World Resources Toleration Affinity) where
  access_lem :
      (path : String) (namespaced : Bool) (fb : FluentBit Resources Toleration Affinity)
      (q : Request)
      → allows fb.name fb.namespace q (objects_of (access_objects client path namespaced fb))
        ≡ (if namespaced then q.namespace == fb.namespace && is_get_pods q else is_get_pods q)
  unfolding access_objects allows any pair_allows rule_allows is_subject refers is_get_pods
      make_rbac_objects make_scoped_rbac_objects
  access_lem path true fb q = simp (or-false, and-true, eq_refl)
  access_lem path false fb q = simp (or-false, eq_refl)

  -- The objects that a Reconcile creates let the service account of the FluentBit get pods, and nothing else: of its own
  -- namespace if the manager watches some namespaces, and of every namespace if it watches all.
  pub access_least :
      (flags : Flags) (env : Result (GoMap String)) (fb : FluentBit Resources Toleration Affinity)
      (q : Request)
      → allows fb.name fb.namespace q (
          objects_of (
            access_objects client
              (settings flags env).container_log_real_path
              (settings flags env).namespaced
              fb))
        ≡ (is_get_pods q && (flags.watch_namespaces == "" || q.namespace == fb.namespace))
  unfolding settings is_namespaced
  access_least flags env fb q =
      access_lem (log_path env) (is_namespaced flags) fb q
      ∙ by_scope (flags.watch_namespaces == "") (q.namespace == fb.namespace) (is_get_pods q)
