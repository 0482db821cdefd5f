-- ===== src/Prelude/Sort.antt =====
-- `sort.Sort` and `sort.Strings`, by the name of an entry. Go's sort is not stable; where the names
-- differ, as the names of the objects of a namespace and the keys of a map do, every sort agrees.
use Prim.Native.String.{String}
use mathlib.Core.Path.{◌≡◌, refl, ap, ap₂, ◌∙◌}
use mathlib.Core.Logic.{◌≢◌, inl, inr}
use mathlib.Core.List.{List, [], ◌∷◌, map, Nodup, Nodup-cons, Permᴰ, mem-cons}
use mathlib.Core.List.Perm
use mathlib.Core.List.Permᴰ
use mathlib.Core.Logic.Or
use native.Mathlib.Omega.{arith}
use fluentbit_operator.Prelude.Tests.{if◌then◌else◌, Bool-cases}
use fluentbit_operator.Prelude.Text.{less, less_asymm, less_trans, less_connex}

module _ {ℓ} {A : Type ℓ} (name : A → String) where
  insert_by : A → List A → List A
  insert_by x [] = x ∷ []
  insert_by x (y ∷ ys) = if less (name y) (name x) then y ∷ insert_by x ys else x ∷ y ∷ ys

  unfoldable pub sort_by : List A → List A
  unfolding insert_by less
  sort_by [] = []
  sort_by (x ∷ xs) = insert_by x (sort_by xs)

  insert_by_comm :
      (x y : A) (l : List A)
      → name x ≢ name y
      → insert_by x (insert_by y l) ≡ insert_by y (insert_by x l)
  unfolding insert_by
  insert_by_comm x y [] d =
      ground (arith, less_asymm (name x) (name y), less_connex (name x) (name y))
  insert_by_comm x y (z ∷ l) d = ground (
    arith,
    insert_by_comm x y l d,
    less_asymm (name x) (name y),
    less_asymm (name y) (name x),
    less_connex (name x) (name y),
    less_trans (name z) (name x) (name y),
    less_trans (name z) (name y) (name x),
    less_trans (name x) (name z) (name y),
    less_trans (name y) (name z) (name x),
    less_connex (name x) (name z),
    less_connex (name y) (name z),
  )

  -- Entries with distinct names sort to one list, in whatever order they come.
  pub sort_by-permᴰ : {xs ys : List A} → Permᴰ xs ys → Nodup (map name xs) → sort_by xs ≡ sort_by ys
  unfolding sort_by
  sort_by-permᴰ Permᴰ.nil n = refl
  sort_by-permᴰ (Permᴰ.cons {b} {l₁} e p) n =
      rw e (ap (insert_by b) (sort_by-permᴰ p ((Nodup-cons {a = name _} {l = map name l₁}).0 n).1))
  sort_by-permᴰ (Permᴰ.swap {a} {b} {l} e f) n =
      insert_by_comm a b (sort_by l) (λ q. (Nodup-cons.0 n).0 (mem-cons.1 (Or.inl q)))
      ∙ ap₂ (λ u v. insert_by u (insert_by v (sort_by l))) f e
  sort_by-permᴰ (Permᴰ.trans p q) n =
      sort_by-permᴰ p n ∙ sort_by-permᴰ q (Perm.nodup (Perm.map name ∣ p ∣₁) n)

  insert_by-perm : (x : A) (l : List A) → Permᴰ (insert_by x l) (x ∷ l)
  unfolding insert_by
  insert_by-perm x [] = Permᴰ.refl (x ∷ [])
  insert_by-perm x (y ∷ l) = elim (Bool-cases (less (name y) (name x))) [
    | inl h ↦ rw h (Permᴰ.trans (Permᴰ.cons refl (insert_by-perm x l)) (Permᴰ.swap refl refl))
    | inr h ↦ rw h (Permᴰ.refl (x ∷ y ∷ l))
  ]

  -- Sorting neither drops nor adds an entry.
  pub sort_by-perm : (l : List A) → Permᴰ (sort_by l) l
  unfolding sort_by
  sort_by-perm [] = Permᴰ.nil
  sort_by-perm (x ∷ l) =
      Permᴰ.trans (insert_by-perm x (sort_by l)) (Permᴰ.cons refl (sort_by-perm l))
