-- ===== src/Tests/Names.antt =====
-- Lists of one and of two distinct names, and what a call returns.
use mathlib.Core.HLevel.{⊥_prop}
use mathlib.Core.List
use mathlib.Core.Logic.Or
use fluentbit_operator.Result.{Result, ok, err}
use fluentbit_operator.Prelude.{◌≡◌, ◌≢◌, String, ◌==◌, false, [], ◌∷◌, Nodup, Mem, eq_iff, arith}

abbrev pub or_else : {A : Type 0} → A → Result A → A
or_else a (ok b) = b
or_else a (err e) = a

distinct : (a b : String) → (a == b) ≡ false → a ≢ b
distinct a b h e = ground (arith, eq_iff a b)

pub one_name : (a : String) → Nodup (a ∷ [])
one_name a = List.Nodup-cons.1 (List.not-mem-nil, List.Nodup-nil)

pub two_names : (a b : String) → (a == b) ≡ false → Nodup (a ∷ b ∷ [])
two_names a b h =
    List.Nodup-cons.1
      (λ m. Or.elim ⊥_prop (List.mem-cons.0 m) (distinct a b h) List.not-mem-nil, one_name b)

pub not_among_two : (a b c : String) → (a == b) ≡ false → (a == c) ≡ false → ¬ Mem a (b ∷ c ∷ [])
not_among_two a b c h k m =
    Or.elim ⊥_prop (List.mem-cons.0 m) (distinct a b h)
      (λ m'. Or.elim ⊥_prop (List.mem-cons.0 m') (distinct a c k) List.not-mem-nil)

pub not_among_one : (a b : String) → (a == b) ≡ false → ¬ Mem a (b ∷ [])
not_among_one a b h m = Or.elim ⊥_prop (List.mem-cons.0 m) (distinct a b h) List.not-mem-nil
