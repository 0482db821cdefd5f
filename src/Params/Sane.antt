-- ===== src/Params/Sane.antt =====
-- Parameters that can be written line by line: as many values as keys, and every key a word.
use mathlib.Core.Path.{subst}
use Prim.Native.Char.{code}
use mathlib.Core.List.{◌++◌}
use mathlib.Core.List.Permᴰ
use fluentbit_operator.Prelude.{
  ◌≡◌, ℕ, String, ◌==◌, Bool, true, false, not, ◌&&◌, Option, none, some, List, [], ◌∷◌, map, GoMap,
  sort_by-perm, eqb, Bool-cases, inl, inr, All, All-perm,
}
use fluentbit_operator.Result.{Result, ok, err}
use fluentbit_operator.Params.{
  Kvs, new_kvs, insert, merge, Transform, map_get, insert_entry, insert_keys, entry_key,
  insert_string_map, insert_text, insert_some, insert_each,
}

-- A code point that neither ends a line nor separates a key from its value.
abbrev pub is_plain : ℕ → Bool
is_plain c = not (eqb c b'\n') && not (eqb c b' ')

abbrev pub all_plain : String → Bool
all_plain String.[] = true
all_plain (String.◌∷◌ c s) = is_plain (code c) && all_plain s

abbrev pub is_word : String → Bool
is_word String.[] = false
is_word (String.◌∷◌ c s) = is_plain (code c) && all_plain s

abbrev pub IsWord : String → Type 0
IsWord k = is_word k ≡ true

-- `keys` and `values` pair off, and every key has the property.
abbrev pub Aligned : (String → Type 0) → List String → List String → Type 0
Aligned W [] [] = Unit
Aligned W (k ∷ ks) (v ∷ vs) = W k × Aligned W ks vs
Aligned W _ _ = ⊥

pub record IsAligned (W : String → Type 0) (kvs : Kvs) : Type 0 where
  pub aligned : Aligned W kvs.keys kvs.values

-- For the parameters that a plugin may return; nil has no entries.
abbrev pub IsAlignedOption : (String → Type 0) → Option Kvs → Type 0
IsAlignedOption W none = Unit
IsAlignedOption W (some kvs) = IsAligned W kvs

abbrev pub IsSane : Kvs → Type 0
IsSane = IsAligned IsWord

abbrev pub IsSaneOption : Option Kvs → Type 0
IsSaneOption = IsAlignedOption IsWord

-- Every key will do.
abbrev pub AnyKey : String → Type 0
AnyKey k = Unit

-- A value, if the call returns one, has the property.
abbrev pub Ensures {ℓ κ} : {A : Type ℓ} → (A → Type κ) → Result A → Type κ
Ensures P (ok a) = P a
Ensures P (err e) = Unit

-- The call returns a value that has the property.
abbrev pub Returns {ℓ κ} : {A : Type ℓ} → (A → Type κ) → Result A → Type (ℓ ⊔ κ)
Returns {A} P r = (a : A) × (r ≡ ok a) × P a

pub Returns-of {ℓ κ} :
    {A : Type ℓ} {P : A → Type κ} {r : Result A} {a : A} → r ≡ ok a → Ensures P r → Returns P r
Returns-of {P} {a} e h = (a, e, subst (Ensures P) e h)

Aligned-append :
    (W : String → Type 0) (ks vs ks' vs' : List String)
    → Aligned W ks vs
    → Aligned W ks' vs'
    → Aligned W (ks ++ ks') (vs ++ vs')
Aligned-append W [] [] ks' vs' h k = k
Aligned-append W [] (v ∷ vs) ks' vs' h k = absurd h
Aligned-append W (x ∷ ks) [] ks' vs' h k = absurd h
Aligned-append W (x ∷ ks) (v ∷ vs) ks' vs' (w, h) k = (w, Aligned-append W ks vs ks' vs' h k)

pub new_kvs-IsAligned : {W : String → Type 0} → IsAligned W new_kvs
new_kvs-IsAligned = record { aligned = tt }

module _ {W : String → Type 0} {kvs : Kvs} where
  pub insert-IsAligned :
      (key value : String) → W key → IsAligned W kvs → IsAligned W (insert key value kvs)
  unfolding insert
  insert-IsAligned key value w h = record {
    aligned = Aligned-append W kvs.keys kvs.values (key ∷ []) (value ∷ []) h.aligned (w, tt);
  }

  pub merge-IsAligned :
      {tail : Kvs} → IsAligned W tail → IsAligned W kvs → IsAligned W (merge tail kvs)
  unfolding merge
  merge-IsAligned {tail} t h = record {
    aligned = Aligned-append W kvs.keys kvs.values tail.keys tail.values h.aligned t.aligned;
  }

  pub insert_text-IsAligned :
      (key x : String) → W key → IsAligned W kvs → IsAligned W (insert_text key x kvs)
  unfolding insert_text
  insert_text-IsAligned key x w h = elim (Bool-cases (x == "")) [
    | inl e ↦ rw e h
    | inr e ↦ rw e (insert-IsAligned key x w h)
  ]

  pub insert_some-IsAligned :
      {A : Type 0} (show : A → String) (key : String) (x : Option A)
      → W key
      → IsAligned W kvs
      → IsAligned W (insert_some show key x kvs)
  unfolding insert_some
  insert_some-IsAligned show key none w h = h
  insert_some-IsAligned show key (some x) w h = insert-IsAligned key (show x) w h

pub insert_each-IsAligned :
    {W : String → Type 0} {kvs : Kvs} (key : String) (xs : List String)
    → W key
    → IsAligned W kvs
    → IsAligned W (insert_each key xs kvs)
unfolding insert_each
insert_each-IsAligned key [] w h = h
insert_each-IsAligned key (x ∷ xs) w h = insert_each-IsAligned key xs w (insert-IsAligned key x w h)

-- The transform makes a key with the property of key `k`.
abbrev pub MakesWord : (String → Type 0) → Transform → String → Type 0
MakesWord W f k = (v : String) → W (f k v).0

insert_keys-IsAligned :
    {W : String → Type 0} (f : Transform) (m : GoMap String) (ks : List String) {kvs : Kvs}
    → All (MakesWord W f) ks
    → IsAligned W kvs
    → IsAligned W (insert_keys (some f) m ks kvs)
unfolding insert_keys insert_entry
insert_keys-IsAligned f m [] w h = h
insert_keys-IsAligned f m (k ∷ ks) (w, ws) h =
    insert_keys-IsAligned f m ks ws
      (insert-IsAligned (f k (map_get m k)).0 (f k (map_get m k)).1 (w (map_get m k)) h)

pub insert_string_map-IsAligned :
    {W : String → Type 0} {kvs : Kvs} (f : Transform) (m : GoMap String)
    → All (MakesWord W f) (map entry_key m)
    → IsAligned W kvs
    → IsAligned W (insert_string_map (some f) m kvs)
unfolding insert_string_map
insert_string_map-IsAligned {W} f m w h =
    insert_keys-IsAligned f m _
      (All-perm (MakesWord W f) (Permᴰ.symm (sort_by-perm (λ k. k) (map entry_key m))) w) h

pub Aligned-any :
    (W : String → Type 0) (ks vs : List String) → Aligned W ks vs → Aligned AnyKey ks vs
Aligned-any W [] [] h = tt
Aligned-any W [] (v ∷ vs) h = h
Aligned-any W (k ∷ ks) [] h = h
Aligned-any W (k ∷ ks) (v ∷ vs) (w, h) = (tt, Aligned-any W ks vs h)

pub IsAlignedOption-any :
    (W : String → Type 0) (r : Result (Option Kvs))
    → Ensures (IsAlignedOption W) r
    → Ensures (IsAlignedOption AnyKey) r
IsAlignedOption-any W (ok none) h = tt
IsAlignedOption-any W (ok (some kvs)) h = record {
  aligned = Aligned-any W kvs.keys kvs.values h.aligned;
}
IsAlignedOption-any W (err e) h = tt
