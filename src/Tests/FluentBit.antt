-- ===== src/Tests/FluentBit.antt =====
-- Instances of the theorems on the FluentBit controller, at a cluster that is three tables.

use text.Mathlib.TextPositions.{eq_refl}
use fluentbit_operator.Prelude.{
  ◌≡◌, refl, ap, ℕ, String, ◌==◌, false, ◌&&◌, Option, none, some, List, [], ◌∷◌, if◌then◌else◌,
  ◌⊎◌, inl,
}
use fluentbit_operator.Result.{Result, ok, err, not_found}
use fluentbit_operator.FluentBit.{
  FluentBit, host_path, is_being_deleted, has_finalizer, add_finalizer, remove_finalizer,
  fluent_bit_finalizer_name,
}
use fluentbit_operator.FluentBit.Finalizers.{has_finalizer-add, has_finalizer-remove}
use fluentbit_operator.Operator.Rbac.{
  Object, ServiceAccount, cluster_role, scoped_role, service_account, cluster_role_binding,
  scoped_role_binding,
}
use fluentbit_operator.Run.{Run}
use fluentbit_operator.Controllers.FluentBit.{Client, Controlled, delete, expected, reconcile}
use fluentbit_operator.Controllers.FluentBit.Laws.{View, DeletesSoundly, Serves}
use fluentbit_operator.Controllers.FluentBit.Deletion.{IsGone, reconcile_guards, reconcile_releases}
use fluentbit_operator.Controllers.FluentBit.Deployment.{rounds, rounds_deploy}

abbrev pub Fb : Type 0
Fb = FluentBit Unit Unit Unit

abbrev pub Table : Type 0 → Type 0
Table A = String → String → Option A

abbrev pub put_at : {A : Type 0} → String → String → Option A → Table A → Table A
put_at ns n a t ns' n' = if ns == ns' && n == n' then a else t ns' n'

pub record Cluster : Type 0 where
  pub fluent_bits : Table Fb
  pub accounts : Table ServiceAccount
  pub daemon_sets : Table (Controlled Unit Unit Unit)

abbrev present : {A : Type 0} → String → Option A → Result (Unit {0})
present n none = err (not_found n)
present n (some a) = ok tt

abbrev pub found : {A : Type 0} → String → Option A → Result A
found n none = err (not_found n)
found n (some a) = ok a

abbrev create : Object → Run Cluster (Unit {0})
create (service_account a) w =
    (record w { accounts = put_at a.namespace a.name (some a) w.accounts }, ok tt)
create (cluster_role r) w = (w, ok tt)
create (scoped_role r) w = (w, ok tt)
create (cluster_role_binding b) w = (w, ok tt)
create (scoped_role_binding b) w = (w, ok tt)

abbrev patch : String → String → Result (Controlled Unit Unit Unit) → Run Cluster (Unit {0})
patch ns n (ok c) w = (record w { daemon_sets = put_at ns n (some c) w.daemon_sets }, ok tt)
patch ns n (err e) w = (w, err e)

abbrev pub client : Client Cluster Unit Unit Unit
client = record {
  get_fluent_bit = λ w ns n. found n (w.fluent_bits ns n);
  update = λ fb w.
      (record w { fluent_bits = put_at fb.namespace fb.name (some fb) w.fluent_bits }, ok tt);
  get_secret = λ w ns n. ok tt;
  create = create;
  get_service_account = λ w ns n. present n (w.accounts ns n);
  delete_service_account = λ ns n w. (record w { accounts = put_at ns n none w.accounts }, ok tt);
  get_daemon_set = λ w ns n. present n (w.daemon_sets ns n);
  delete_daemon_set = λ ns n w. (record w { daemon_sets = put_at ns n none w.daemon_sets }, ok tt);
  set_controller_reference = λ fb. ok tt;
  create_or_patch = patch;
}

abbrev pub view : View Cluster Unit Unit Unit
view = record {
  fluent_bit = λ w. w.fluent_bits;
  account = λ w. w.accounts;
  daemon_set = λ w. w.daemon_sets;
}

pub put_at_there :
    {A : Type 0} (ns n : String) (a : Option A) (t : Table A) → put_at ns n a t ns n ≡ a
put_at_there ns n a t = rw (eq_refl ns, eq_refl n) refl

absent : {A : Type 0} (n s : String) (o : Option A) → present n o ≡ err (not_found s) → o ≡ none
absent n s none h = refl
absent n s (some a) h = cc

pub client-DeletesSoundly : DeletesSoundly client view
client-DeletesSoundly = record {
  account_not_found = λ w ns n s. absent n s (w.accounts ns n);
  account_deleted = λ w ns n h. put_at_there ns n none w.accounts;
  account_gone = λ w ns n s h. put_at_there ns n none w.accounts;
  daemon_set_not_found = λ w ns n s. absent n s (w.daemon_sets ns n);
  daemon_set_deleted = λ w ns n h. put_at_there ns n none w.daemon_sets;
  daemon_set_gone = λ w ns n s h. put_at_there ns n none w.daemon_sets;
  account-fluent_bit = λ w ns n. refl;
  daemon_set-fluent_bit = λ w ns n. refl;
  daemon_set-account = λ w ns n. refl;
  update-account = λ w fb ns n. refl;
  update-daemon_set = λ w fb ns n. refl;
}

found_some : {A : Type 0} (n : String) (o : Option A) (a : A) → o ≡ some a → found n o ≡ ok a
found_some n o a h = rw h refl

created : (w : Cluster) (o : Object) → (create o w).1 ≡ ok tt
created w (service_account a) = refl
created w (cluster_role a) = refl
created w (scoped_role a) = refl
created w (cluster_role_binding a) = refl
created w (scoped_role_binding a) = refl

create-fluent_bits : (w : Cluster) (o : Object) → (create o w).0.fluent_bits ≡ w.fluent_bits
create-fluent_bits w (service_account a) = refl
create-fluent_bits w (cluster_role a) = refl
create-fluent_bits w (scoped_role a) = refl
create-fluent_bits w (cluster_role_binding a) = refl
create-fluent_bits w (scoped_role_binding a) = refl

client-Serves : Serves client view
client-Serves = record {
  found = λ w ns n fb. found_some n (w.fluent_bits ns n) fb;
  updated = λ w fb. refl;
  update-fluent_bit = λ w fb a. put_at_there fb.namespace fb.name (some fb) w.fluent_bits;
  update-secret = λ w fb ns n. refl;
  created = λ w o. inl (created w o);
  create-fluent_bit = λ w o ns n. ap (λ (t : Table Fb). t ns n) (create-fluent_bits w o);
  create-secret = λ w o ns n. refl;
  referenced = λ fb. refl;
  patched = λ w ns n c. refl;
  patch-daemon_set = λ w ns n c. put_at_there ns n (some c) w.daemon_sets;
  patch-fluent_bit = λ w ns n ns' n' c. refl;
  patch-secret = λ w ns n ns' n' c. refl;
}

abbrev pub example : Option ℕ → List String → Fb
example deletion finalizers = record {
  name = "fluent-bit";
  namespace = "fluent";
  labels = [];
  deletion_timestamp = deletion;
  finalizers = finalizers;
  image = "kubesphere/fluent-bit:v1.8.3";
  args = [];
  image_pull_policy = "";
  image_pull_secrets = [];
  position_db = host_path "/var/lib/fluent-bit/";
  container_log_real_path = "";
  resources = tt;
  node_selector = [];
  affinity = none;
  tolerations = [];
  fluent_bit_config_name = "fluent-bit-config";
  secrets = [];
  runtime_class_name = "";
  priority_class_name = "";
}

abbrev pub holding : Fb → Cluster
holding fb = record {
  fluent_bits = put_at fb.namespace fb.name (some fb) (λ ns n. none);
  accounts = λ ns n. some (record { name = n; namespace = ns; controller = none });
  daemon_sets = λ ns n. none;
}

abbrev pub dying : Fb
dying = example (some 1) (fluent_bit_finalizer_name ∷ [])

reconcile_guards_example :
    let w = (reconcile client "" false "fluent" "fluent-bit" (holding dying)).0 in
    IsGone client view client-DeletesSoundly w "fluent" "fluent-bit"
    ⊎ (w.fluent_bits "fluent" "fluent-bit" ≡ some dying)
reconcile_guards_example =
    reconcile_guards client view client-DeletesSoundly dying "" false (holding dying) refl
      (unfold is_being_deleted in refl) (unfold has_finalizer in refl)

reconcile_releases_example :
    let w = (delete client dying (holding dying)).0 in
    IsGone client view client-DeletesSoundly
      (reconcile client "" false "fluent" "fluent-bit" (holding dying)).0
      "fluent"
      "fluent-bit"
    × ((client.update (remove_finalizer fluent_bit_finalizer_name dying) w).1 ≡ ok tt)
    × ((reconcile client "" false "fluent" "fluent-bit" (holding dying)).0
        ≡ (client.update (remove_finalizer fluent_bit_finalizer_name dying) w).0)
reconcile_releases_example =
    reconcile_releases client view client-DeletesSoundly dying "" false (holding dying) false refl
      (unfold is_being_deleted in refl) (unfold has_finalizer in refl) (unfold reconcile in refl)

rounds_deploy_example :
    (rounds client "" false "fluent" "fluent-bit" 3 (holding (example none []))).daemon_sets
      "fluent" "fluent-bit"
    ≡ some (expected client "" false (example none []))
rounds_deploy_example =
    rounds_deploy client view client-Serves "" false (example none []) 1 (holding (example none []))
      (unfold is_being_deleted in refl) refl refl

has_finalizer-add_example : has_finalizer "b" (add_finalizer "a" dying) ≡ has_finalizer "b" dying
has_finalizer-add_example = has_finalizer-add "a" dying "b"

has_finalizer-remove_example :
    has_finalizer "a" (remove_finalizer "a" (example none ("a" ∷ "b" ∷ "a" ∷ []))) ≡ false
has_finalizer-remove_example = has_finalizer-remove "a" (example none ("a" ∷ "b" ∷ "a" ∷ [])) "a"
