-- ===== src/DocGen/Types/Printable.antt =====
-- What the generator makes of declarations whose names are plain can stand in tables.
use Prim.Native.Char.{Char, code}
use Prim.Native.String.{String, ◌++◌}
use mathlib.Core.Path.{subst}
use fluentbit_operator.Prelude.{
  ◌≡◌, refl, ◌∙◌, Bool, true, false, ◌||◌, ◌==◌, Option, none, some, List, [], ◌∷◌, GoMap, lookup,
  ℕ, ltb, eqb, arith, split, put_first, to_lower, All, Bool-cases, inl, inr, if◌then◌else◌,
}
use fluentbit_operator.Result.{ok, bind_ok, ok-injective}
use fluentbit_operator.DocGen.{replace, contains, fmt_raw_doc}
use fluentbit_operator.DocGen.Types.{
  Expr, ident, star, array, selector, map_of, other_type, Field, TypeDoc, Pair, KubeTypes, Struct,
  links, self_links, wrap_in_link, link_or, to_link, field_type, first_part, go_name, tag_name,
  name_by_tag, field_name, document_fields, document_types, structs, insert_at, sort_positions,
  parse_documentation_from,
}
use fluentbit_operator.DocGen.Cells.{
  is_tame, cell_of_tame, tame-append, tame-replace, tame-to_lower, fmt_raw_doc_cell,
}
use fluentbit_operator.DocGen.Reader.Rows.{IsRow, IsPrintable}

abbrev Tame : String → Type 0
Tame s = is_tame s ≡ true

-- Every name in a type is tame.
unfoldable pub HasTameNames : Expr → Type 0
HasTameNames (ident name) = Tame name
HasTameNames (star x) = HasTameNames x
HasTameNames (selector pkg name) = Tame pkg × Tame name
HasTameNames (array elt) = HasTameNames elt
HasTameNames (map_of key value) = HasTameNames key × HasTameNames value
HasTameNames other_type = Unit {0}

abbrev TameTag : Option String → Type 0
TameTag none = Unit {0}
TameTag (some tag) = Tame tag

abbrev pub IsTameField : Field → Type 0
IsTameField f = HasTameNames f.typ × All Tame f.names × TameTag f.tag

wrap-Tame : (text link : String) → Tame text → Tame link → Tame (wrap_in_link text link)
unfolding wrap_in_link
wrap-Tame text link h k =
    let close = tame-append link ")" k refl in
    let middle = tame-append "](" (link ++ ")") refl close in
    tame-append "[" (text ++ "](" ++ link ++ ")") refl
      (tame-append text ("](" ++ link ++ ")") h middle)

link_or-Tame :
    (name rest : String) (o : Option String)
    → Tame name
    → Tame rest
    → TameTag o
    → Tame (link_or name o rest)
unfolding link_or
link_or-Tame name rest none h k l = k
link_or-Tame name rest (some link) h k l = wrap-Tame name link h l

lookup-Tame :
    (name : String) (m : GoMap String)
    → All (λ (p : String × String). Tame p.1) m
    → TameTag (lookup name m)
unfolding lookup
lookup-Tame name [] h = tt
lookup-Tame name ((k, v) ∷ m) (p, h) = elim (Bool-cases (k == name)) [
  | inl e ↦ rw e p
  | inr e ↦ rw e (lookup-Tame name m h)
]

to_link-Tame : (name : String) → Tame name → Tame (to_link name)
unfolding to_link
to_link-Tame name h =
    elim (Bool-cases (
      contains name "input."
      || contains name "output."
      || contains name "filter."
      || contains name "parser.")) [
        | inl e ↦ rw e (
            let lowered = tame-replace "." "/" (to_lower name) refl (tame-to_lower name ∙ h) in
            let path = tame-append (replace "." "/" (to_lower name)) ".md" lowered refl in
            wrap-Tame name ("plugins/" ++ replace "." "/" (to_lower name) ++ ".md") h
              (tame-append "plugins/" (replace "." "/" (to_lower name) ++ ".md") refl path))
        | inr e ↦ rw e (
            link_or-Tame name (link_or name (lookup name links) name) (lookup name self_links) h
              (link_or-Tame name name (lookup name links) h h (
                lookup-Tame name links
                  (refl, (refl, (refl, (refl, (refl, (refl, (refl, (refl, (refl, tt)))))))))))
              (lookup-Tame name self_links tt))
      ]

field_type-Tame : (x : Expr) → HasTameNames x → Tame (field_type x)
unfolding field_type HasTameNames
field_type-Tame (ident name) h = to_link-Tame name h
field_type-Tame (star x) h = tame-append "*" (field_type x) refl (field_type-Tame x h)
field_type-Tame (selector pkg name) (h, k) =
    to_link-Tame (pkg ++ "." ++ name)
      (tame-append pkg ("." ++ name) h (tame-append "." name refl k))
field_type-Tame (array elt) h =
    tame-append "[]" (to_link (field_type elt)) refl
      (to_link-Tame (field_type elt) (field_type-Tame elt h))
field_type-Tame (map_of key value) (h, k) =
    let inner = to_link-Tame (field_type value) (field_type-Tame value k) in
    let close = tame-append "]" (to_link (field_type value)) refl inner in
    tame-append "map[" (to_link (field_type key) ++ "]" ++ to_link (field_type value)) refl (
      tame-append (to_link (field_type key)) ("]" ++ to_link (field_type value))
        (to_link-Tame (field_type key) (field_type-Tame key h)) close)
field_type-Tame other_type h = refl

head-Tame : (c : Char) (s : String) → Tame (String.◌∷◌ c s) → Tame (String.◌∷◌ c "")
head-Tame c s h = ground arith

tail-Tame : (c : Char) (s : String) → Tame (String.◌∷◌ c s) → Tame s
tail-Tame c s h = ground arith

first-put_first-Tame :
    (c : Char) (ws : List String)
    → Tame (String.◌∷◌ c "")
    → Tame (first_part ws)
    → Tame (first_part (put_first c ws))
unfolding first_part put_first
first-put_first-Tame c [] h k = h
first-put_first-Tame c (w ∷ ws) h k = ground arith

first-Tame : (sep : Char) (s : String) → Tame s → Tame (first_part (split sep s))
unfolding first_part split put_first
first-Tame sep String.[] h = refl
first-Tame sep (String.◌∷◌ c s) h = elim (Bool-cases (eqb (code c) (code sep))) [
  | inl e ↦ rw e refl
  | inr e ↦
      rw e (
        first-put_first-Tame c (split sep s) (head-Tame c s h) (first-Tame sep s (tail-Tame c s h)))
]

go_name-Tame :
    (f : Field) (ns : List String) (x : Expr) (n : String)
    → All Tame ns
    → HasTameNames x
    → go_name f ns x ≡ ok n
    → Tame n
unfolding go_name HasTameNames
go_name-Tame f (m ∷ ns) x n h k e = subst Tame (ok-injective m n e) h.0
go_name-Tame f [] (ident name) n h k e = subst Tame (ok-injective name n e) k
go_name-Tame f [] (star x) n h k e = cc
go_name-Tame f [] (selector pkg name) n h k e = cc
go_name-Tame f [] (array elt) n h k e = cc
go_name-Tame f [] (map_of key value) n h k e = cc
go_name-Tame f [] other_type n h k e = cc

tag_name-Tame :
    (f : Field) (tag n : String) → IsTameField f → Tame tag → tag_name f tag ≡ ok n → Tame n
unfolding tag_name
tag_name-Tame f tag n (x, ns, t) h = elim (Bool-cases (first_part (split "," tag) == "")) [
  | inl e ↦ rw e (go_name-Tame f f.names f.typ n ns x)
  | inr e ↦ rw e λ same. subst Tame (ok-injective _ n same) (first-Tame "," tag h)
]

name_by_tag-Tame :
    (f : Field) (o : Option String) (n : String)
    → IsTameField f
    → TameTag o
    → name_by_tag f o ≡ ok n
    → Tame n
unfolding name_by_tag
name_by_tag-Tame f none n h k = tag_name-Tame f "" n h refl
name_by_tag-Tame f (some tag) n h k = elim (Bool-cases (contains tag "inline")) [
  | inl e ↦ rw e λ same. subst Tame (ok-injective "-" n same) refl
  | inr e ↦ rw e (tag_name-Tame f tag n h k)
]

unless_dash :
    (b : Bool) (p : Pair) (ps : List Pair)
    → IsRow p
    → All IsRow ps
    → All IsRow (if b then ps else p ∷ ps)
unless_dash true p ps h k = k
unless_dash false p ps h k = (h, k)

document_fields-IsRow :
    (fs : List Field) (ps : List Pair)
    → All IsTameField fs
    → document_fields fs ≡ ok ps
    → All IsRow ps
unfolding document_fields field_name
document_fields-IsRow [] ps h e = subst (All IsRow) (ok-injective [] ps e) tt
document_fields-IsRow (f ∷ fs) ps (h, hs) e =
    let (n, en, e') = bind_ok (field_name f) _ ps e in
    let (rest, er, e'') = bind_ok (document_fields fs) _ ps e' in
    let rest_rows = document_fields-IsRow fs rest hs er in
    let named = name_by_tag-Tame f f.tag n h h.2 en in
    subst (All IsRow) (ok-injective _ ps e'') (
      unless_dash (n == "-") (record { name = n; doc = fmt_raw_doc f.doc; typ = field_type f.typ })
        rest
        (
          cell_of_tame false n named,
          fmt_raw_doc_cell false f.doc,
          cell_of_tame false (field_type f.typ) (field_type-Tame f.typ h.0),
        )
        rest_rows)

abbrev pub IsTameStruct : Struct → Type 0
IsTameStruct t = Tame t.name × All IsTameField t.fields

document_types-IsPrintable :
    (ts : List Struct) (ks : List KubeTypes)
    → All IsTameStruct ts
    → document_types ts ≡ ok ks
    → All IsPrintable ks
unfolding document_types
document_types-IsPrintable [] ks h e = subst (All IsPrintable) (ok-injective [] ks e) tt
document_types-IsPrintable (t ∷ ts) ks ((n, fs), hs) e =
    let (fields, ef, e') = bind_ok (document_fields t.fields) _ ks e in
    let (rest, er, e'') = bind_ok (document_types ts) _ ks e' in
    subst (All IsPrintable) (ok-injective _ ks e'') (
      (
        cell_of_tame false t.name n,
        fmt_raw_doc_cell false t.doc,
        document_fields-IsRow t.fields fields fs ef,
      ),
      document_types-IsPrintable ts rest hs er,
    )

-- A declaration of a struct whose names are tame, or of something else.
abbrev IsTameStructure : String → Option (ℕ × List Field) → Type 0
IsTameStructure name none = Unit {0}
IsTameStructure name (some (pos, fields)) = Tame name × All IsTameField fields

abbrev pub IsTameType : TypeDoc → Type 0
IsTameType t = IsTameStructure t.name t.struct

structure-Tame :
    (t : TypeDoc) (o : Option (ℕ × List Field)) (rest : List Struct)
    → IsTameStructure t.name o
    → All IsTameStruct rest
    → All IsTameStruct (elim o [
      | none ↦ rest
      | some (pos, fields) ↦
          record { name = t.name; doc = t.doc; pos = pos; fields = fields } ∷ rest
    ])
structure-Tame t none rest k hs = hs
structure-Tame t (some (pos, fields)) rest k hs = (k, hs)

structs-Tame : (ts : List TypeDoc) → All IsTameType ts → All IsTameStruct (structs ts)
unfolding structs
structs-Tame [] h = tt
structs-Tame (t ∷ ts) (h, hs) = structure-Tame t t.struct (structs ts) h (structs-Tame ts hs)

insert_at-All :
    (t : Struct) (us : List Struct)
    → IsTameStruct t
    → All IsTameStruct us
    → All IsTameStruct (insert_at t us)
unfolding insert_at
insert_at-All t [] h k = (h, tt)
insert_at-All t (u ∷ us) h k = elim (Bool-cases (ltb u.pos t.pos)) [
  | inl e ↦ rw e (k.0, insert_at-All t us h k.1)
  | inr e ↦ rw e (h, k)
]

sort_positions-All : (ts : List Struct) → All IsTameStruct ts → All IsTameStruct (sort_positions ts)
unfolding sort_positions
sort_positions-All [] h = tt
sort_positions-All (t ∷ ts) h = insert_at-All t (sort_positions ts) h.0 (sort_positions-All ts h.1)

-- Where the names of a file are tame, what is parsed of it can stand in tables.
pub parse_documentation-IsPrintable :
    (ts : List TypeDoc) (sorted : Bool) (ks : List KubeTypes)
    → All IsTameType ts
    → parse_documentation_from (some ts) sorted ≡ ok ks
    → All IsPrintable ks
unfolding parse_documentation_from
parse_documentation-IsPrintable ts true ks h e =
    document_types-IsPrintable (sort_positions (structs ts)) ks
      (sort_positions-All (structs ts) (structs-Tame ts h)) e
parse_documentation-IsPrintable ts false ks h e =
    document_types-IsPrintable (structs ts) ks (structs-Tame ts h) e
