-- ===== src/Controllers/Config/Gather.antt =====
-- The answers of the API to four calls, listed in one order or another.
use fluentbit_operator.Prelude.{◌≡◌, ap, String, List, Perm}
use fluentbit_operator.Result.{Result, ok, err, ◌>>=◌}
use fluentbit_operator.Config.Stable.{HasDistinctNames}

-- The same objects, with distinct names, in another order; or the same error.
unfoldable pub Alike : {A : Type 0} → (A → String) → Result (List A) → Result (List A) → Type 0
Alike name (ok xs) (ok ys) = HasDistinctNames name xs × Perm xs ys
Alike name (err e) (err f) = e ≡ f
Alike name (ok xs) (err f) = ⊥
Alike name (err e) (ok ys) = ⊥

bind-Alike :
    {A B : Type 0} (name : A → String) (r r' : Result (List A)) (f g : List A → Result B)
    → Alike name r r'
    → ((xs ys : List A) → HasDistinctNames name xs → Perm xs ys → f xs ≡ g ys)
    → (r >>= f) ≡ (r' >>= g)
unfolding Alike
bind-Alike name (ok xs) (ok ys) f g (d, p) h = h xs ys d p
bind-Alike name (err e) (err e') f g a h = ap (λ x. err x) a
bind-Alike name (ok xs) (err f') f g a h = absurd a
bind-Alike name (err e) (ok ys) f g a h = absurd a

module _ {A B C D E : Type 0} where
  abbrev pub gather :
      Result A → Result B → Result C → Result D → (A → B → C → D → Result E) → Result E
  gather ra rb rc rd f = do a ← ra; b ← rb; c ← rc; d ← rd; f a b c d

pub gather-Alike :
    {A B C D E : Type 0} (a : A → String) (ra ra' : Result (List A)) (b : B → String)
    (rb rb' : Result (List B)) (c : C → String) (rc rc' : Result (List C)) (d : D → String)
    (rd rd' : Result (List D)) (f g : List A → List B → List C → List D → Result E)
    → Alike a ra ra'
    → Alike b rb rb'
    → Alike c rc rc'
    → Alike d rd rd'
    → ((ws ws' : List A) (xs xs' : List B) (ys ys' : List C) (zs zs' : List D)
        → HasDistinctNames a ws
        → HasDistinctNames b xs
        → HasDistinctNames c ys
        → HasDistinctNames d zs
        → Perm ws ws'
        → Perm xs xs'
        → Perm ys ys'
        → Perm zs zs'
        → f ws xs ys zs ≡ g ws' xs' ys' zs')
    → gather ra rb rc rd f ≡ gather ra' rb' rc' rd' g
gather-Alike a ra ra' b rb rb' c rc rc' d rd rd' f g la lb lc ld h =
    bind-Alike a ra ra' _ _ la λ ws ws' da pa. bind-Alike b rb rb' _ _ lb λ xs xs' db pb.
      bind-Alike c rc rc' _ _ lc λ ys ys' dc pc.
        bind-Alike d rd rd' (f ws xs ys) (g ws' xs' ys') ld
          λ zs zs' dd pd. h ws ws' xs xs' ys ys' zs zs' da db dc dd pa pb pc pd
