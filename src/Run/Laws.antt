-- ===== src/Run/Laws.antt =====
-- What a chain of calls leaves, from what each call leaves.
use mathlib.Core.Path.{subst}
use fluentbit_operator.Prelude.{◌≡◌, refl, sym, ap, ◌∙◌}
use fluentbit_operator.Result.{Error, Result, ok, err, ok-injective}
use fluentbit_operator.Run.{Run, continue, ◌>>=◌, return, read}

module _ {World A B : Type 0} (f : A → Run World B) where
  -- A chain that returns has passed its first call.
  pub continue_ok :
      (p : World × Result A) (b : B)
      → (continue f p).1 ≡ ok b
      → (a : A) × (p.1 ≡ ok a) × (continue f p ≡ f a p.0)
  unfolding continue
  continue_ok (w, ok a) b h = (a, refl, refl)
  continue_ok (w, err e) b h = cc

  pub continue-eq : (p : World × Result A) (a : A) → p.1 ≡ ok a → continue f p ≡ f a p.0
  unfolding continue
  continue-eq (w, ok a) b h = ap (λ c. f c w) (ok-injective a b h)
  continue-eq (w, err e) b h = cc

  -- A view that both parts of a chain leave alone.
  pub continue-kept :
      {X : Type 0} (view : World → X) (x : X) (p : World × Result A)
      → view p.0 ≡ x
      → ((a : A) (w : World) → view (f a w).0 ≡ view w)
      → view (continue f p).0 ≡ x
  unfolding continue
  continue-kept view x (w, ok a) h k = k a w ∙ h
  continue-kept view x (w, err e) h k = h

continue_err :
    {World A B : Type 0} (f : A → Run World B) (p : World × Result A) (e : Error)
    → p.1 ≡ err e
    → continue f p ≡ (p.0, err e)
unfolding continue
continue_err f (w, ok a) e h = cc
continue_err f (w, err x) e h = ap (λ r. (w, r)) cc

continue-return :
    {World A B : Type 0} (b : B) (p : World × Result A) → (continue (λ a w. (w, ok b)) p).0 ≡ p.0
unfolding continue
continue-return b (w, ok a) = refl
continue-return b (w, err e) = refl

module _ {World A B : Type 0} (m : Run World A) (f : A → Run World B) (w : World) where
  pub then_ok :
      (b : B) → ((m >>= f) w).1 ≡ ok b → (a : A) × ((m w).1 ≡ ok a) × ((m >>= f) w ≡ f a (m w).0)
  then_ok b h = continue_ok f (m w) b h

  pub then-eq : (a : A) → (m w).1 ≡ ok a → (m >>= f) w ≡ f a (m w).0
  then-eq a h = continue-eq f (m w) a h

  pub then_err : (e : Error) → (m w).1 ≡ err e → (m >>= f) w ≡ ((m w).0, err e)
  then_err e h = continue_err f (m w) e h

  pub then_return-world : (b : B) → ((m >>= λ _. return b) w).0 ≡ (m w).0
  then_return-world b = continue-return b (m w)

  pub then-kept :
      {X : Type 0} (see : World → X)
      → see (m w).0 ≡ see w
      → ((a : A) (w' : World) → see (f a w').0 ≡ see w')
      → see ((m >>= f) w).0 ≡ see w
  then-kept see h k = continue-kept f see (see w) (m w) h k

-- From a world with `P`, the call returns a value, and leaves a world that the value and `Q` fit.
abbrev pub Achieves :
    {World A : Type 0} → (World → Type 0) → Run World A → (A → World → Type 0) → Type 0
Achieves {World} {A} P m Q = (w : World) → P w → (a : A) × ((m w).1 ≡ ok a) × Q a (m w).0

pub Achieves-then :
    {World A B : Type 0} (P : World → Type 0) (Q : A → World → Type 0) (R : B → World → Type 0)
    (m : Run World A) (f : A → Run World B)
    → Achieves P m Q
    → ((a : A) → Achieves (Q a) (f a) R)
    → Achieves P (m >>= f) R
Achieves-then P Q R m f h k w p =
    let (a, e, q) = h w p in
    let (b, e', r) = k a (m w).0 q in
    let same = then-eq m f w a e in (b, ap (λ p. p.1) same ∙ e', subst (λ p. R b p.0) (sym same) r)

-- Whatever the call returns, it leaves what is seen of the world as it was.
pub record Keeps {World X A : Type 0} (see : World → X) (m : Run World A) : Type 0 where
  pub keeps : (w : World) → see (m w).0 ≡ see w

pub Keeps-read :
    {World X A : Type 0} (see : World → X) (get : World → Result A) → Keeps see (read get)
Keeps-read see get = record { keeps = λ w. refl }

pub Keeps-return :
    {World X A : Type 0} (see : World → X) (a : A) → Keeps see (return {World = World} a)
Keeps-return see a = record { keeps = λ w. refl }

pub Keeps-then :
    {World X A B : Type 0} (see : World → X) (m : Run World A) (f : A → Run World B)
    → Keeps see m
    → ((a : A) → Keeps see (f a))
    → Keeps see (m >>= f)
Keeps-then see m f h k = record { keeps = λ w. then-kept m f w see (h.keeps w) (λ a. (k a).keeps) }

pub ruleset keeping = (Keeps-read, Keeps-return, Keeps-then)

-- Where `P` holds before, and the call returns a value, `Q` holds of the value and after.
abbrev pub Ensures :
    {World A : Type 0} → (World → Type 0) → Run World A → (A → World → Type 0) → Type 0
Ensures {World} {A} P m Q = (w : World) → P w → (a : A) → (m w).1 ≡ ok a → Q a (m w).0

pub Ensures-then :
    {World A B : Type 0} (P : World → Type 0) (Q : A → World → Type 0) (R : B → World → Type 0)
    (m : Run World A) (f : A → Run World B)
    → Ensures P m Q
    → ((a : A) → Ensures (Q a) (f a) R)
    → Ensures P (m >>= f) R
Ensures-then P Q R m f h k w p b e =
    let (a, ea, same) = then_ok m f w b e in
    subst (λ p. R b p.0) (sym same) (k a (m w).0 (h w p a ea) b (sym (ap (λ p. p.1) same) ∙ e))
