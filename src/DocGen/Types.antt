-- ===== src/DocGen/Types.antt =====
-- The declarations that go/parser and go/doc read, as far as the generator looks at them, and what it makes of them:
-- `ParseDocumentationFrom`, `fieldName`, `fieldType` and `toLink`. In a type, the left side of a selector is a name.
pub mod Printable
use Prim.Native.String
use Prim.Native.String.{String, ◌++◌}
use fluentbit_operator.Prelude.{
  ℕ, Bool, true, false, ◌||◌, ◌==◌, Option, none, some, List, [], ◌∷◌, GoMap, lookup, ltb, split,
  to_lower, if◌then◌else◌,
}
use fluentbit_operator.Result.{Result, ok, err, panicked, ◌>>=◌}
use fluentbit_operator.DocGen.{contains, replace, fmt_raw_doc}

-- `ast.Expr`
pub data Expr : Type 0 where
  ident : String → Expr
  star array : Expr → Expr
  selector : String → String → Expr
  map_of : Expr → Expr → Expr
  other_type : Expr

-- `ast.Field`, with what its tag has under `json`, which is empty where there is nothing
pub record Field : Type 0 where
  pub names : List String
  pub typ : Expr
  pub tag : Option String
  pub doc : String

-- `doc.Type`, with the position and the fields of a struct
pub record TypeDoc : Type 0 where
  pub name : String
  pub doc : String
  pub struct : Option (ℕ × List Field)

pub record Pair : Type 0 where
  pub name : String
  pub doc : String
  pub typ : String

-- A slice of pairs, of which the first is for the type itself, and is always there.
pub record KubeTypes : Type 0 where
  pub strukt : Pair
  pub fields : List Pair

abbrev pub links : GoMap String
links =
    (
      "metav1.ObjectMeta",
      "https://kubernetes.io/docs/reference/generated/kubernetes-api/v1.17/#objectmeta-v1-meta",
    )
    ∷ (
      "metav1.ListMeta",
      "https://kubernetes.io/docs/reference/generated/kubernetes-api/v1.17/#listmeta-v1-meta",
    )
    ∷ (
      "metav1.LabelSelector",
      "https://kubernetes.io/docs/reference/generated/kubernetes-api/v1.17/#labelselector-v1-meta",
    )
    ∷ (
      "corev1.SecretKeySelector",
      "https://kubernetes.io/docs/reference/generated/kubernetes-api/v1.17/#secretkeyselector-v1-core",
    )
    ∷ (
      "corev1.Toleration",
      "https://kubernetes.io/docs/reference/generated/kubernetes-api/v1.17/#toleration-v1-core",
    )
    ∷ (
      "corev1.VolumeSource",
      "https://kubernetes.io/docs/reference/generated/kubernetes-api/v1.17/#volume-v1-core",
    )
    ∷ ("plugins.Secret", "../secret.md")
    ∷ ("Secret", "secret.md")
    ∷ ("plugins.TLS", "../tls.md")
    ∷ []

abbrev pub self_links : GoMap String
self_links = []

unfoldable pub wrap_in_link : String → String → String
wrap_in_link text link = "[" ++ text ++ "](" ++ link ++ ")"

unfoldable pub link_or : String → Option String → String → String
unfolding wrap_in_link
link_or type_name (some link) rest = wrap_in_link type_name link
link_or type_name none rest = rest

unfoldable pub to_link : String → String
unfolding contains to_lower replace wrap_in_link link_or lookup
to_link type_name =
    if contains type_name "input."
      || contains type_name "output."
      || contains type_name "filter."
      || contains type_name "parser."
    then wrap_in_link type_name ("plugins/" ++ replace "." "/" (to_lower type_name) ++ ".md")
    else link_or type_name (lookup type_name self_links)
        (link_or type_name (lookup type_name links) type_name)

unfoldable pub field_type : Expr → String
unfolding to_link
field_type (ident name) = to_link name
field_type (star x) = "*" ++ field_type x
field_type (selector pkg name) = to_link (pkg ++ "." ++ name)
field_type (array elt) = "[]" ++ to_link (field_type elt)
field_type (map_of key value) =
    "map[" ++ to_link (field_type key) ++ "]" ++ to_link (field_type value)
field_type other_type = ""

-- `strings.Split(jsonTag, ",")[0]`
unfoldable pub first_part : List String → String
first_part [] = ""
first_part (p ∷ ps) = p

-- The name of a field without a name in its tag; that of an embedded field is a type, and not of another package.
unfoldable pub go_name : Field → List String → Expr → Result String
go_name field (n ∷ ns) typ = ok n
go_name field [] (ident name) = ok name
go_name field [] (star x) = err panicked
go_name field [] (selector pkg name) = err panicked
go_name field [] (array elt) = err panicked
go_name field [] (map_of key value) = err panicked
go_name field [] other_type = err panicked

unfoldable pub tag_name : Field → String → Result String
unfolding split first_part go_name
tag_name field json_tag =
    let name = first_part (split "," json_tag) in
    if name == "" then go_name field field.names field.typ else ok name

unfoldable pub name_by_tag : Field → Option String → Result String
unfolding tag_name contains
name_by_tag field none = tag_name field ""
name_by_tag field (some json_tag) =
    if contains json_tag "inline" then ok "-" else tag_name field json_tag

-- `fieldName`
unfoldable pub field_name : Field → Result String
unfolding name_by_tag
field_name field = name_by_tag field field.tag

-- The inner loop of `ParseDocumentationFrom`
unfoldable pub document_fields : List Field → Result (List Pair)
unfolding field_name field_type fmt_raw_doc
document_fields [] = ok []
document_fields (f ∷ fs) = do
  n ← field_name f
  rest ← document_fields fs
  ok (
      if n == "-"
      then rest
      else record { name = n; doc = fmt_raw_doc f.doc; typ = field_type f.typ } ∷ rest)

-- A struct, with its position
pub record Struct : Type 0 where
  pub name : String
  pub doc : String
  pub pos : ℕ
  pub fields : List Field

unfoldable pub structs : List TypeDoc → List Struct
structs [] = []
structs (t ∷ ts) =
    let rest = structs ts in
    elim t.struct [
      | none ↦ rest
      | some (pos, fields) ↦
          record { name = t.name; doc = t.doc; pos = pos; fields = fields } ∷ rest
    ]

-- `sort.Slice`, by positions, which differ
unfoldable pub insert_at : Struct → List Struct → List Struct
insert_at t [] = t ∷ []
insert_at t (u ∷ us) = let rest = insert_at t us in if ltb u.pos t.pos then u ∷ rest else t ∷ u ∷ us

unfoldable pub sort_positions : List Struct → List Struct
unfolding insert_at
sort_positions [] = []
sort_positions (t ∷ ts) = insert_at t (sort_positions ts)

unfoldable pub document_types : List Struct → Result (List KubeTypes)
unfolding document_fields fmt_raw_doc
document_types [] = ok []
document_types (t ∷ ts) = do
  fields ← document_fields t.fields
  rest ← document_types ts
  ok (
      record {
        strukt = record { name = t.name; doc = fmt_raw_doc t.doc; typ = "" };
        fields = fields;
      }
      ∷ rest)

-- `ParseDocumentationFrom`, of what `astFrom` returns: nil, where the file cannot be read or parsed.
unfoldable pub parse_documentation_from : Option (List TypeDoc) → Bool → Result (List KubeTypes)
unfolding structs sort_positions document_types
parse_documentation_from none should_sort = err panicked
parse_documentation_from (some types) should_sort =
    document_types (if should_sort then sort_positions (structs types) else structs types)
