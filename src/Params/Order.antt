-- ===== src/Params/Order.antt =====
-- `InsertStringMap` does not depend on the order in which Go iterates over the map.
use mathlib.Core.List.{Permᴰ, Nodup-cons, mem-cons, map-id}
use mathlib.Core.Option as Opt
use mathlib.Core.List.Permᴰ
use mathlib.Core.List.Perm
use mathlib.Core.Logic.Or
use text.Mathlib.TextEquality.{IsScalar-prop}
use fluentbit_operator.Prelude.{
  ◌≡◌, ◌≢◌, refl, some, ap, ap₂, ◌∙◌, String, ◌==◌, Option, List, [], ◌∷◌, map, Nodup, Perm, GoMap,
  lookup, sort_by, sort_by-permᴰ, arith, if◌then◌else◌, eq_iff, ∥∥₁_elim,
}
use fluentbit_operator.Params.{
  Kvs, Transform, map_get, insert_keys, insert_entry, entry_key, insert_string_map,
}

-- A Go map holds a key once.
abbrev pub HasDistinctKeys {ℓ} : {V : Type ℓ} → GoMap V → Type 0
HasDistinctKeys m = Nodup (map entry_key m)

module _ (k : String) where
  lookup-swap :
      (a b : String × String) (l : GoMap String)
      → a.0 ≢ b.0
      → lookup k (a ∷ b ∷ l) ≡ lookup k (b ∷ a ∷ l)
  unfolding lookup
  lookup-swap a b l d = ground (arith, eq_iff a.0 k, eq_iff b.0 k)

  lookup-permᴰ : {m n : GoMap String} → Permᴰ m n → HasDistinctKeys m → lookup k m ≡ lookup k n
  unfolding lookup
  lookup-permᴰ Permᴰ.nil d = refl
  lookup-permᴰ (Permᴰ.cons {a} {b} {l₁} e p) d = rw e (
      ap (λ t. if b.0 == k then some b.1 else t)
        (lookup-permᴰ p ((Nodup-cons {a = entry_key a} {l = map entry_key l₁}).0 d).1))
  lookup-permᴰ (Permᴰ.swap {a} {b} {l} e f) d =
      lookup-swap a b l (λ q. (Nodup-cons.0 d).0 (mem-cons.1 (Or.inl q)))
      ∙ ap₂ (λ u v. lookup k (u ∷ v ∷ l)) f e
  lookup-permᴰ (Permᴰ.trans p q) d =
      lookup-permᴰ p d ∙ lookup-permᴰ q (Perm.nodup (Perm.map entry_key ∣ p ∣₁) d)

insert_keys-eq :
    (f : Option Transform) (m n : GoMap String) (ks : List String) (kvs : Kvs)
    → ((k : String) → map_get m k ≡ map_get n k)
    → insert_keys f m ks kvs ≡ insert_keys f n ks kvs
unfolding insert_keys
insert_keys-eq f m n [] kvs h = refl
insert_keys-eq f m n (k ∷ ks) kvs h =
    rw (h k) (insert_keys-eq f m n ks (insert_entry f k (map_get n k) kvs) h)

Kvs-set : IsSet Kvs
Kvs-set = hlevel IsScalar-prop

-- The parameters that `InsertStringMap` adds, of a map that holds a key once, do not depend on the order
-- of the iteration over the map.
pub insert_string_map-perm :
    (f : Option Transform) (m n : GoMap String) (kvs : Kvs)
    → Perm m n
    → HasDistinctKeys m
    → insert_string_map f m kvs ≡ insert_string_map f n kvs
unfolding insert_string_map map_get
insert_string_map-perm f m n kvs p d = ∥∥₁_elim p (Kvs-set _ _) λ q.
    ap (λ ks. insert_keys f m ks kvs) (sort_by-permᴰ (λ k. k) (Permᴰ.map entry_key q) (rw map-id d))
    ∙ insert_keys-eq f m n (sort_by (λ k. k) (map entry_key n)) kvs
        (λ k. ap (λ o. Opt.get_or o "") (lookup-permᴰ k q d))
