-- ===== src/Params/Render.antt =====
-- What `String` writes: a line for each entry, in order. It does not panic on parameters whose keys
-- and values pair off.
use Prim.Native.String.{◌++◌}
use mathlib.Core.List
use text.Mathlib.TextLemmas.{nil-append, append_assoc, append-nil}
use fluentbit_operator.Prelude.{◌≡◌, refl, sym, ◌∙◌, ap, String, Option, none, some, List, [], ◌∷◌}
use fluentbit_operator.Result.{ok}
use fluentbit_operator.Params.{Kvs, insert, merge, line, write_lines, to_string}
use fluentbit_operator.Params.Sane.{Aligned, IsAligned, IsAlignedOption, AnyKey}

abbrev pub Entry : Type 0
Entry = String × String

-- The entries that two slices of equal length hold.
unfoldable pub pair_off : List String → List String → List Entry
pair_off (k ∷ ks) (v ∷ vs) = (k, v) ∷ pair_off ks vs
pair_off _ _ = []

unfoldable pub entries : Option Kvs → List Entry
unfolding pair_off
entries none = []
entries (some kvs) = pair_off kvs.keys kvs.values

unfoldable pub print_entries : List Entry → String
print_entries [] = ""
print_entries ((k, v) ∷ es) = line k v ++ print_entries es

pub print_entries-append :
    (es fs : List Entry) → print_entries (List.◌++◌ es fs) ≡ print_entries es ++ print_entries fs
unfolding print_entries
print_entries-append [] fs = sym (nil-append _)
print_entries-append ((k, v) ∷ es) fs =
    ap (◌++◌ (line k v)) (print_entries-append es fs) ∙ sym (append_assoc _ _ _)

write_lines-eq :
    (ks vs : List String) (buf : String)
    → Aligned AnyKey ks vs
    → write_lines ks vs buf ≡ ok (buf ++ print_entries (pair_off ks vs))
unfolding write_lines print_entries pair_off
write_lines-eq [] [] buf h = ap ok (sym (append-nil buf))
write_lines-eq [] (v ∷ vs) buf h = absurd h
write_lines-eq (k ∷ ks) [] buf h = absurd h
write_lines-eq (k ∷ ks) (v ∷ vs) buf (w, h) =
    write_lines-eq ks vs (buf ++ line k v) h ∙ ap ok (append_assoc buf (line k v) _)

-- `String` returns the lines of the entries, and does not panic, where keys and values pair off.
pub to_string-eq-print :
    (kvs : Option Kvs)
    → IsAlignedOption AnyKey kvs
    → to_string kvs ≡ ok (print_entries (entries kvs))
unfolding to_string entries print_entries
to_string-eq-print none h = refl
to_string-eq-print (some kvs) h =
    write_lines-eq kvs.keys kvs.values "" h.aligned ∙ ap ok (nil-append _)

pair_off-append :
    (ks vs ks' vs' : List String)
    → Aligned AnyKey ks vs
    → pair_off (List.◌++◌ ks ks') (List.◌++◌ vs vs') ≡ List.◌++◌ (pair_off ks vs) (pair_off ks' vs')
unfolding pair_off
pair_off-append [] [] ks' vs' h = refl
pair_off-append [] (v ∷ vs) ks' vs' h = absurd h
pair_off-append (k ∷ ks) [] ks' vs' h = absurd h
pair_off-append (k ∷ ks) (v ∷ vs) ks' vs' (w, h) = ap (◌∷◌ (k, v)) (pair_off-append ks vs ks' vs' h)

-- `Merge` puts the entries of its argument behind those of the receiver, where the keys and values of
-- the receiver pair off.
pub entries-merge :
    (tail kvs : Kvs)
    → IsAligned AnyKey kvs
    → entries (some (merge tail kvs)) ≡ List.◌++◌ (entries (some kvs)) (entries (some tail))
unfolding entries merge
entries-merge tail kvs h = pair_off-append kvs.keys kvs.values tail.keys tail.values h.aligned

-- `Insert` puts one entry behind the others.
pub entries-insert :
    (key value : String) (kvs : Kvs)
    → IsAligned AnyKey kvs
    → entries (some (insert key value kvs)) ≡ List.◌++◌ (entries (some kvs)) ((key, value) ∷ [])
unfolding entries insert pair_off
entries-insert key value kvs h =
    pair_off-append kvs.keys kvs.values (key ∷ []) (value ∷ []) h.aligned
