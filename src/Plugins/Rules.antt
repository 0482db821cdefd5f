-- ===== src/Plugins/Rules.antt =====
-- One rule for each statement of the `Params` methods, for the property `IsSane` of what they return.
use fluentbit_operator.Prelude.{refl, String, Option, none, some, List, [], ◌∷◌}
use fluentbit_operator.Result.{Result, ok, err, ◌>>=◌}
use fluentbit_operator.Params.{Kvs, insert}
use fluentbit_operator.Params.Sane.{
  IsWord, IsAligned, IsSane, IsSaneOption, Ensures, new_kvs-IsAligned, insert-IsAligned,
  merge-IsAligned, insert_text-IsAligned, insert_some-IsAligned, insert_each-IsAligned,
}
use fluentbit_operator.Plugins.{Secret, SecretLoader, load_secret, insert_secret, insert_joined}
use fluentbit_operator.Plugins.Tls.{Tls, params, merge_tls}

-- The rest of the block may use what the first call ensures.
pub Ensures-bind {ℓ κ} :
    {A B : Type ℓ} (P : A → Type κ) (Q : B → Type κ) (r : Result A) (f : A → Result B)
    → Ensures P r
    → ((a : A) → P a → Ensures Q (f a))
    → Ensures Q (r >>= f)
Ensures-bind P Q (ok a) f h k = k a h
Ensures-bind P Q (err e) f h k = tt

load_then_insert :
    {kvs : Kvs} (r : Result String) (key : String)
    → IsWord key
    → IsSane kvs
    → Ensures IsSane (r >>= λ v. ok (insert key v kvs))
load_then_insert (ok v) key w h = insert-IsAligned key v w h
load_then_insert (err e) key w h = tt

pub insert_secret-IsAligned :
    {kvs : Kvs} (sl : SecretLoader) (key : String) (o : Option Secret)
    → IsWord key
    → IsSane kvs
    → Ensures IsSane (insert_secret sl key o kvs)
unfolding insert_secret
insert_secret-IsAligned sl key none w h = h
insert_secret-IsAligned sl key (some s) w h = load_then_insert (load_secret sl s) key w h

pub insert_joined-IsAligned :
    {W : String → Type 0} {kvs : Kvs} (sep key : String) (xs : List String)
    → W key
    → IsAligned W kvs
    → IsAligned W (insert_joined sep key xs kvs)
unfolding insert_joined
insert_joined-IsAligned sep key [] w h = h
insert_joined-IsAligned sep key (x ∷ xs) w h = insert-IsAligned key _ w h

pub ruleset step_rules = (
  refl, new_kvs-IsAligned, insert-IsAligned, insert_text-IsAligned, insert_some-IsAligned,
  insert_each-IsAligned, insert_joined-IsAligned,
)

module _ {kvs : Kvs} (sl : SecretLoader) where
  bind_secret :
      (key : String) (o : Option Secret) (f : Kvs → Result Kvs)
      → IsWord key
      → IsSane kvs
      → ((kvs' : Kvs) → IsSane kvs' → Ensures IsSane (f kvs'))
      → Ensures IsSane (insert_secret sl key o kvs >>= f)
  bind_secret key o f w h k =
      Ensures-bind IsSane IsSane _ f (insert_secret-IsAligned sl key o w h) k

  pub then_secret :
      (key : String) (o : Option Secret) (f : Kvs → Result (Option Kvs))
      → IsWord key
      → IsSane kvs
      → ((kvs' : Kvs) → IsSane kvs' → Ensures IsSaneOption (f kvs'))
      → Ensures IsSaneOption (insert_secret sl key o kvs >>= f)
  then_secret key o f w h k =
      Ensures-bind IsSane IsSaneOption _ f (insert_secret-IsAligned sl key o w h) k

params-IsAligned : (sl : SecretLoader) (t : Tls) → Ensures IsSane (params sl t)
unfolding params
params-IsAligned sl t = search (step_rules, bind_secret) depth 40

merge_tls-IsAligned :
    {kvs : Kvs} (sl : SecretLoader) (o : Option Tls)
    → IsSane kvs
    → Ensures IsSane (merge_tls sl o kvs)
unfolding merge_tls
merge_tls-IsAligned sl none h = h
merge_tls-IsAligned sl (some t) h =
    Ensures-bind IsSane IsSane (params sl t) _ (params-IsAligned sl t)
      (λ tls k. merge-IsAligned k h)

pub then_tls :
    {kvs : Kvs} (sl : SecretLoader) (o : Option Tls) (f : Kvs → Result (Option Kvs))
    → IsSane kvs
    → ((kvs' : Kvs) → IsSane kvs' → Ensures IsSaneOption (f kvs'))
    → Ensures IsSaneOption (merge_tls sl o kvs >>= f)
then_tls sl o f h k = Ensures-bind IsSane IsSaneOption _ f (merge_tls-IsAligned sl o h) k

pub ruleset output_rules = (step_rules, then_secret, then_tls)
