-- ===== src/Config/Sections/Load.antt =====
-- The loops of the `Load` methods print the sections.
use Prim.Native.String.{◌++◌}
use mathlib.Core.List
use text.Mathlib.TextLemmas.{nil-append, append-nil, append_assoc}
use fluentbit_operator.Prelude.{
  ◌≡◌, refl, sym, ap, ◌∙◌, String, ◌==◌, Option, none, some, List, [], ◌∷◌, Bool-cases, inl, inr,
}
use fluentbit_operator.Result.{Result, ok, err, ◌>>=◌}
use fluentbit_operator.Params.{Kvs}
use fluentbit_operator.Params.Sane.{AnyKey, IsAlignedOption, Ensures}
use fluentbit_operator.Params.Render.{entries, print_entries, to_string-eq-print}
use fluentbit_operator.Config.Write.{write_text, write_params, write_fields, write_items}
use fluentbit_operator.Config.Sections.{Section, print_section, print, optional, field_sections}

-- What is printed behind a buffer, or the error.
abbrev pub behind {ℓ} : {A : Type ℓ} → (A → String) → String → Result A → Result String
behind show buf (ok a) = ok (buf ++ show a)
behind show buf (err e) = err e

-- The concatenation of what the calls return, or the first error.
unfoldable pub concat_results {ℓ κ} :
    {A : Type ℓ} {B : Type κ} → (A → Result (List B)) → List A → Result (List B)
concat_results f [] = ok []
concat_results f (x ∷ xs) = do ys ← f x; zs ← concat_results f xs; ok (List.◌++◌ ys zs)

pub print-append : (ss ts : List Section) → print (List.◌++◌ ss ts) ≡ print ss ++ print ts
unfolding print
print-append [] ts = sym (nil-append _)
print-append (s ∷ ss) ts =
    ap (◌++◌ (print_section s)) (print-append ss ts) ∙ sym (append_assoc _ _ _)

pub write_text-eq :
    (key x buf : String) → write_text key x buf ≡ buf ++ print_entries (optional key x)
unfolding write_text optional print_entries
write_text-eq key x buf = elim (Bool-cases (x == "")) [
  | inl e ↦ rw e (sym (append-nil buf))
  | inr e ↦ rw e (ap (◌++◌ buf) (sym (append-nil _)))
]

pub write_params-eq :
    (r : Result (Option Kvs)) (buf : String)
    → Ensures (IsAlignedOption AnyKey) r
    → write_params r buf ≡ behind (λ kvs. print_entries (entries kvs)) buf r
unfolding write_params
write_params-eq (ok kvs) buf h = rw (to_string-eq-print kvs h)
write_params-eq (err e) buf h = refl

-- One round of a loop, whose rest prints what `more` holds.
module _ {A : Type 0} (show : A → String) (put : A → List Section → List Section)
    (print-put : (a : A) (ss : List Section) → print (put a ss) ≡ show a ++ print ss)
    (rest : String → Result String) (more : Result (List Section))
    (prints : (b : String) → rest b ≡ behind print b more) where
  round_ok :
      (buf : String) (a : A) (m : Result (List Section))
      → behind print (buf ++ show a) m ≡ behind print buf (m >>= λ ss. ok (put a ss))
  round_ok buf a (ok ss) =
      ap ok (append_assoc buf (show a) (print ss) ∙ ap (◌++◌ buf) (sym (print-put a ss)))
  round_ok buf a (err e) = refl

  round :
      (buf : String) (r : Result A)
      → (behind show buf r >>= rest) ≡ behind print buf (r >>= λ a. more >>= λ ss. ok (put a ss))
  round buf (ok a) = prints (buf ++ show a) ∙ round_ok buf a more
  round buf (err e) = refl

module _ {P : Type 0} (merge : P → String → Result String) (section : P → Result Section)
    (prints : (p : P) (buf : String) → merge p buf ≡ behind print_section buf (section p)) where
  pub write_fields-eq :
      (ps : List (Option P)) (buf : String)
      → write_fields merge ps buf ≡ behind print buf (field_sections section ps)
  unfolding write_fields field_sections print
  write_fields-eq [] buf = ap ok (sym (append-nil buf))
  write_fields-eq (none ∷ ps) buf = write_fields-eq ps buf
  write_fields-eq (some p ∷ ps) buf = rw (prints p buf) (
      round print_section ◌∷◌ (λ s ss. refl) (write_fields merge ps) (field_sections section ps)
        (write_fields-eq ps) buf (section p))

module _ {A : Type 0} (write : A → String → Result String) (sections : A → Result (List Section))
    (prints : (x : A) (buf : String) → write x buf ≡ behind print buf (sections x)) where
  pub write_items-eq :
      (xs : List A) (buf : String)
      → write_items write xs buf ≡ behind print buf (concat_results sections xs)
  unfolding write_items concat_results print
  write_items-eq [] buf = ap ok (sym (append-nil buf))
  write_items-eq (x ∷ xs) buf = rw (prints x buf) (
      round print List.◌++◌ print-append (write_items write xs) (concat_results sections xs)
        (write_items-eq xs) buf (sections x))
