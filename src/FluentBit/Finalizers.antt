-- ===== src/FluentBit/Finalizers.antt =====
-- Adding and removing finalizers.
use mathlib.Core.List
use fluentbit_operator.Prelude.{◌≡◌, String, ◌==◌, true, false, List, [], ◌∷◌, arith, if◌then◌else◌}
use fluentbit_operator.Utils.{contain_string}
use fluentbit_operator.Utils.Laws.{contain-remove}
use fluentbit_operator.FluentBit.{FluentBit, has_finalizer, add_finalizer, remove_finalizer}

contain-append :
    (xs : List String) (s t : String)
    → contain_string (List.◌++◌ xs (s ∷ [])) t ≡ (if s == t then true else contain_string xs t)
unfolding contain_string
contain-append [] s t = ground arith
contain-append (x ∷ xs) s t = ground (arith, contain-append xs s t)

module _ {Resources Toleration Affinity : Type 0} (name : String)
    (fb : FluentBit Resources Toleration Affinity) where
  -- After `AddFinalizer` of a name, an object has that finalizer, and of the others those that it had.
  pub has_finalizer-add :
      (t : String)
      → has_finalizer t (add_finalizer name fb) ≡ (if name == t then true else has_finalizer t fb)
  unfolding has_finalizer add_finalizer
  has_finalizer-add t = contain-append fb.finalizers name t

  -- After `RemoveFinalizer` of a name, an object has the finalizers of other names that it had, and not
  -- that one, however often it had it.
  pub has_finalizer-remove :
      (t : String)
      → has_finalizer t (remove_finalizer name fb)
        ≡ (if name == t then false else has_finalizer t fb)
  unfolding has_finalizer remove_finalizer
  has_finalizer-remove t = contain-remove fb.finalizers name t
