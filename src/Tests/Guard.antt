-- ===== src/Tests/Guard.antt =====
-- The finalizer as a guard, at a cluster that is three tables, and a client that only finds a FluentBit under its own name.
use fluentbit_operator.Prelude.{
  ◌≡◌, refl, sym, ap, ◌∙◌, String, ◌==◌, eq_iff, Bool, true, false, ◌&&◌, Bool-cases, Option, none,
  some, [], inl, inr, if◌then◌else◌,
}
use fluentbit_operator.Result.{Result, ok, err, not_found, ok-injective}
use fluentbit_operator.Operator.Rbac.{
  Object, cluster_role, scoped_role, service_account, cluster_role_binding, scoped_role_binding,
}
use fluentbit_operator.Controllers.FluentBit.{Client, Controlled, reconcile}
use fluentbit_operator.Controllers.FluentBit.Laws.{DeletesSoundly}
use fluentbit_operator.Controllers.FluentBit.Guard.{
  see, IsLocal, IsGuarded, Reachable, empty, reconciles, Reachable-IsGuarded,
}
use fluentbit_operator.Tests.FluentBit.{
  Fb, Table, put_at, Cluster, client, view, example, holding, client-DeletesSoundly,
}

abbrev is_named : String → String → Fb → Bool
is_named ns n fb = (fb.namespace == ns) && (fb.name == n)

abbrev named : String → String → Option Fb → Result Fb
named ns n none = err (not_found n)
named ns n (some fb) = if is_named ns n fb then ok fb else err (not_found n)

abbrev careful : Client Cluster Unit Unit Unit
careful = record client { get_fluent_bit = λ w ns n. named ns n (w.fluent_bits ns n) }

careful-DeletesSoundly : DeletesSoundly careful view
careful-DeletesSoundly = record {
  account_not_found = client-DeletesSoundly.account_not_found;
  account_deleted = client-DeletesSoundly.account_deleted;
  account_gone = client-DeletesSoundly.account_gone;
  daemon_set_not_found = client-DeletesSoundly.daemon_set_not_found;
  daemon_set_deleted = client-DeletesSoundly.daemon_set_deleted;
  daemon_set_gone = client-DeletesSoundly.daemon_set_gone;
  account-fluent_bit = client-DeletesSoundly.account-fluent_bit;
  daemon_set-fluent_bit = client-DeletesSoundly.daemon_set-fluent_bit;
  daemon_set-account = client-DeletesSoundly.daemon_set-account;
  update-account = client-DeletesSoundly.update-account;
  update-daemon_set = client-DeletesSoundly.update-daemon_set;
}

and-both : (a b : Bool) → a && b ≡ true → (a ≡ true) × (b ≡ true)
and-both true b h = (refl, h)
and-both false b h = cc

named_ok :
    (ns n : String) (o : Option Fb) (fb : Fb)
    → named ns n o ≡ ok fb
    → (o ≡ some fb) × (fb.namespace ≡ ns) × (fb.name ≡ n)
named_ok ns n none fb e = cc
named_ok ns n (some f) fb e = elim (Bool-cases (is_named ns n f)) [
  | inl t ↦
      let same = ok-injective f fb (sym (rw t refl) ∙ e) in
      let (i, j) = and-both _ _ t in
      (
        ap some same,
        ap (λ (g : Fb). g.namespace) (sym same) ∙ (eq_iff f.namespace ns).0 i,
        ap (λ (g : Fb). g.name) (sym same) ∙ (eq_iff f.name n).0 j,
      )
  | inr t ↦ let never : ◌≡◌ {A = Result Fb} (err (not_found n)) (ok fb) = sym (rw t refl) ∙ e in cc
]

put_at-apart :
    {A : Type 0} (ns n ns' n' : String) (a : Option A) (t : Table A)
    → ¬ ((ns ≡ ns') × (n ≡ n'))
    → put_at ns' n' a t ns n ≡ t ns n
put_at-apart ns n ns' n' a t d = elim (Bool-cases (ns' == ns && n' == n)) [
  | inr e ↦ rw e refl
  | inl e ↦
      let (i, j) = and-both _ _ e in absurd (d (sym ((eq_iff ns' ns).0 i), sym ((eq_iff n' n).0 j)))
]

created-seen :
    (w : Cluster) (ns n : String) (o : Object)
    → see careful view ns n (careful.create o w).0 ≡ see careful view ns n w
created-seen w ns n (cluster_role r) = refl
created-seen w ns n (scoped_role r) = refl
created-seen w ns n (service_account a) = refl
created-seen w ns n (cluster_role_binding b) = refl
created-seen w ns n (scoped_role_binding b) = refl

patched-apart :
    (w : Cluster) (ns n ns' n' : String) (c : Result (Controlled Unit Unit Unit))
    → ¬ ((ns ≡ ns') × (n ≡ n'))
    → see careful view ns n (careful.create_or_patch ns' n' c w).0 ≡ see careful view ns n w
patched-apart w ns n ns' n' (ok c) d =
    ap (λ x. (w.fluent_bits ns n, x)) (put_at-apart ns n ns' n' (some c) w.daemon_sets d)
patched-apart w ns n ns' n' (err e) d = refl

patched-fluent_bit :
    (w : Cluster) (ns n ns' n' : String) (c : Result (Controlled Unit Unit Unit))
    → (careful.create_or_patch ns' n' c w).0.fluent_bits ns n ≡ w.fluent_bits ns n
patched-fluent_bit w ns n ns' n' (ok c) = refl
patched-fluent_bit w ns n ns' n' (err e) = refl

careful-IsLocal : IsLocal careful view
careful-IsLocal = record {
  found = λ w ns n. named_ok ns n (w.fluent_bits ns n);
  update-apart = λ w ns n fb d.
      ap (λ x. (x, w.daemon_sets ns n))
        (put_at-apart ns n fb.namespace fb.name (some fb) w.fluent_bits d);
  create-seen = created-seen;
  account-seen = λ w ns n ns' n'. refl;
  daemon_set-apart = λ w ns n ns' n' d.
      ap (λ x. (w.fluent_bits ns n, x)) (put_at-apart ns n ns' n' none w.daemon_sets d);
  patch-apart = patched-apart;
  patch-fluent_bit = patched-fluent_bit;
}

-- A FluentBit gets its finalizer and its DaemonSet.
abbrev begun : Cluster
begun = holding (example none [])

abbrev again : Cluster → Cluster
again w = (reconcile careful "" false "fluent" "fluent-bit" w).0

deployed-Reachable : Reachable careful view "" false (again (again begun))
deployed-Reachable =
    reconciles (again begun) "fluent" "fluent-bit"
      (reconciles begun "fluent" "fluent-bit" (empty begun (λ ns n. refl)))

Reachable-IsGuarded_example :
    IsGuarded careful view (see careful view "fluent" "fluent-bit" (again (again begun)))
Reachable-IsGuarded_example =
    Reachable-IsGuarded careful view careful-DeletesSoundly careful-IsLocal "" false
      (again (again begun)) deployed-Reachable "fluent" "fluent-bit"
