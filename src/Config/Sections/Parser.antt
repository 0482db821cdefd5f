-- ===== src/Config/Sections/Parser.antt =====
-- What the `Load` of parser_types.go prints: a section for each parser plugin of each item, sorted by
-- name, with the decoders behind the plugin's own parameters.
use Prim.Native.String.{◌++◌}
use mathlib.Core.List
use text.Mathlib.TextLemmas.{append_assoc, append-nil}
use fluentbit_operator.Prelude.{◌≡◌, refl, sym, ap, ◌∙◌, String, Option, List, [], ◌∷◌, sort_by}
use fluentbit_operator.Result.{Result, ok, err, ◌>>=◌}
use fluentbit_operator.Params.{Kvs, line}
use fluentbit_operator.Params.Sane.{IsWord, IsAlignedOption-any}
use fluentbit_operator.Params.Render.{Entry, entries, print_entries, print_entries-append}
use fluentbit_operator.Plugins.{SecretLoader}
use fluentbit_operator.Plugins.Parser.{ParserPlugin, name, params}
use fluentbit_operator.Plugins.Sane.Parser.{parser_params-IsSane}
use fluentbit_operator.Config.Parser.{
  Parser, Decorder, fields, write_decoders, merge, write_item, load,
}
use fluentbit_operator.Config.Sections.{
  Section, headline, print_section, print, optional, field_sections,
}
use fluentbit_operator.Config.Sections.Load.{
  behind, concat_results, write_text-eq, write_params-eq, write_fields-eq, write_items-eq,
}

-- The entries of the decoders.
unfoldable pub decoder_entries : List Decorder → List Entry
unfolding optional
decoder_entries [] = []
decoder_entries (d ∷ ds) =
    List.◌++◌ (optional "Decode_Field" d.decode_field)
      (List.◌++◌ (optional "Decode_Field_As" d.decode_field_as) (decoder_entries ds))

-- The entries of the section of plugin `p`, whose own parameters are `own`.
unfoldable pub section_entries : Parser → ParserPlugin → List Entry → List Entry
unfolding decoder_entries
section_entries item p own =
    ("Name", item.name) ∷ ("Format", name p) ∷ List.◌++◌ own (decoder_entries item.spec.decoders)

-- The section of plugin `p` of an item, or the error of its parameters.
unfoldable pub section : SecretLoader → Parser → ParserPlugin → Result Section
unfolding section_entries entries
section sl item p = do
  kvs ← params sl p
  ok (record { header = "PARSER"; entries = section_entries item p (entries kvs) })

unfoldable pub item_sections : SecretLoader → Parser → Result (List Section)
unfolding field_sections section
item_sections sl item = field_sections (section sl item) (fields item.spec)

-- The sections of a list of items.
unfoldable pub sections : SecretLoader → List Parser → Result (List Section)
unfolding concat_results item_sections sort_by
sections sl items = concat_results (item_sections sl) (sort_by (λ item. item.name) items)

write_decoders-eq :
    (ds : List Decorder) (buf : String)
    → write_decoders ds buf ≡ buf ++ print_entries (decoder_entries ds)
unfolding write_decoders decoder_entries print_entries
write_decoders-eq [] buf = sym (append-nil buf)
write_decoders-eq (d ∷ ds) buf =
    write_decoders-eq ds _ ∙ simp (write_text-eq, print_entries-append, append_assoc)

headline_eq : headline "PARSER" ≡ "[PARSER]\n"
unfolding headline
headline_eq = refl

header_text :
    (item : Parser) (p : ParserPlugin) (buf : String) (own : List Entry)
    → write_decoders item.spec.decoders (
        (buf ++ "[PARSER]\n" ++ line "Name" item.name ++ line "Format" (name p))
        ++ print_entries own)
      ≡ buf ++ print_section (record { header = "PARSER"; entries = section_entries item p own })
unfolding print_section section_entries print_entries
header_text item p buf own =
    write_decoders-eq item.spec.decoders _ ∙ simp (headline_eq, print_entries-append, append_assoc)

headed :
    (item : Parser) (p : ParserPlugin) (buf : String) (r : Result (Option Kvs))
    → (behind
          (λ kvs. print_entries (entries kvs))
          (buf ++ "[PARSER]\n" ++ line "Name" item.name ++ line "Format" (name p))
          r
        >>= λ b. ok (write_decoders item.spec.decoders b))
      ≡ behind print_section buf (
          r >>= λ kvs.
          ok (record { header = "PARSER"; entries = section_entries item p (entries kvs) }))
headed item p buf (ok kvs) = ap ok (header_text item p buf (entries kvs))
headed item p buf (err e) = refl

merge-eq :
    (sl : SecretLoader) (item : Parser) (p : ParserPlugin) (buf : String)
    → merge sl item p buf ≡ behind print_section buf (section sl item p)
unfolding merge section
merge-eq sl item p buf =
    ap (λ r. r >>= λ b. ok (write_decoders item.spec.decoders b))
      (write_params-eq (params sl p) _ (IsAlignedOption-any IsWord _ (parser_params-IsSane sl p)))
    ∙ headed item p buf (params sl p)

item-eq :
    (sl : SecretLoader) (item : Parser) (buf : String)
    → write_item sl item buf ≡ behind print buf (item_sections sl item)
unfolding write_item item_sections
item-eq sl item buf =
    write_fields-eq (merge sl item) (section sl item) (merge-eq sl item) (fields item.spec) buf

-- `Load` prints the sections of the items, and fails exactly where they fail.
pub parser_load-eq-print :
    (sl : SecretLoader) (items : List Parser) → load sl items ≡ behind print "" (sections sl items)
unfolding load sections
parser_load-eq-print sl items =
    write_items-eq (write_item sl) (item_sections sl) (item-eq sl)
      (sort_by (λ item. item.name) items) ""
