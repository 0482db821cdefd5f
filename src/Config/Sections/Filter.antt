-- ===== src/Config/Sections/Filter.antt =====
-- What the `Load` of filter_types.go prints: a section for each plugin of each item, sorted by name.
use Prim.Native.String.{◌++◌}
use mathlib.Core.List
use text.Mathlib.TextLemmas.{append_assoc}
use fluentbit_operator.Prelude.{◌≡◌, refl, ap, ◌∙◌, String, Option, List, ◌∷◌, sort_by}
use fluentbit_operator.Result.{Result, ok, err, ◌>>=◌}
use fluentbit_operator.Params.{Kvs, line}
use fluentbit_operator.Params.Sane.{IsWord, IsAlignedOption-any}
use fluentbit_operator.Params.Render.{Entry, entries, print_entries, print_entries-append}
use fluentbit_operator.Plugins.{SecretLoader}
use fluentbit_operator.Plugins.Filter.{FilterPlugin, name, params}
use fluentbit_operator.Plugins.Sane.Filter.{filter_params-IsSane}
use fluentbit_operator.Config.Filter.{Filter, FilterItem, fields, merge, write_item, load}
use fluentbit_operator.Config.Write.{write_text, write_fields}
use fluentbit_operator.Config.Sections.{
  Section, headline, print_section, print, optional, field_sections,
}
use fluentbit_operator.Config.Sections.Load.{
  behind, concat_results, write_text-eq, write_params-eq, write_fields-eq, write_items-eq,
}

-- The entries of the section of plugin `p`, whose own parameters are `own`.
unfoldable pub section_entries : Filter → FilterPlugin → List Entry → List Entry
unfolding optional
section_entries item p own =
    ("Name", name p)
    ∷ List.◌++◌ (optional "Match" item.spec.match)
        (List.◌++◌ (optional "Match_Regex" item.spec.match_regex) own)

-- The section of plugin `p` of an item, or the error of its parameters.
unfoldable pub section : SecretLoader → Filter → FilterPlugin → Result Section
unfolding section_entries entries
section sl item p = do
  kvs ← params sl p
  ok (record { header = "Filter"; entries = section_entries item p (entries kvs) })

unfoldable pub item_sections : SecretLoader → Filter → Result (List Section)
unfolding concat_results field_sections section
item_sections sl item =
    concat_results (λ elem. field_sections (section sl item) (fields elem)) item.spec.filter_items

-- The sections of a list of items.
unfoldable pub sections : SecretLoader → List Filter → Result (List Section)
unfolding concat_results item_sections sort_by
sections sl items = concat_results (item_sections sl) (sort_by (λ item. item.name) items)

headline_eq : headline "Filter" ≡ "[Filter]\n"
unfolding headline
headline_eq = refl

header_text :
    (item : Filter) (p : FilterPlugin) (buf : String) (own : List Entry)
    → (write_text "Match_Regex" item.spec.match_regex
          (write_text "Match" item.spec.match (buf ++ "[Filter]\n" ++ line "Name" (name p))))
        ++ print_entries own
      ≡ buf ++ print_section (record { header = "Filter"; entries = section_entries item p own })
unfolding print_section section_entries print_entries
header_text item p buf own = simp (headline_eq, write_text-eq, print_entries-append, append_assoc)

headed :
    (item : Filter) (p : FilterPlugin) (buf : String) (r : Result (Option Kvs))
    → behind
        (λ kvs. print_entries (entries kvs))
        (write_text "Match_Regex" item.spec.match_regex
          (write_text "Match" item.spec.match (buf ++ "[Filter]\n" ++ line "Name" (name p))))
        r
      ≡ behind print_section buf (
          r >>= λ kvs.
          ok (record { header = "Filter"; entries = section_entries item p (entries kvs) }))
headed item p buf (ok kvs) = ap ok (header_text item p buf (entries kvs))
headed item p buf (err e) = refl

merge-eq :
    (sl : SecretLoader) (item : Filter) (p : FilterPlugin) (buf : String)
    → merge sl item p buf ≡ behind print_section buf (section sl item p)
unfolding merge section
merge-eq sl item p buf =
    write_params-eq (params sl p) _ (IsAlignedOption-any IsWord _ (filter_params-IsSane sl p))
    ∙ headed item p buf (params sl p)

elem-eq :
    (sl : SecretLoader) (item : Filter) (elem : FilterItem) (buf : String)
    → write_fields (merge sl item) (fields elem) buf
      ≡ behind print buf (field_sections (section sl item) (fields elem))
elem-eq sl item elem buf =
    write_fields-eq (merge sl item) (section sl item) (merge-eq sl item) (fields elem) buf

item-eq :
    (sl : SecretLoader) (item : Filter) (buf : String)
    → write_item sl item buf ≡ behind print buf (item_sections sl item)
unfolding write_item item_sections
item-eq sl item buf =
    write_items-eq (λ elem. write_fields (merge sl item) (fields elem))
      (λ elem. field_sections (section sl item) (fields elem)) (elem-eq sl item)
      item.spec.filter_items buf

-- `Load` prints the sections of the items, and fails exactly where they fail.
pub filter_load-eq-print :
    (sl : SecretLoader) (items : List Filter) → load sl items ≡ behind print "" (sections sl items)
unfolding load sections
filter_load-eq-print sl items =
    write_items-eq (write_item sl) (item_sections sl) (item-eq sl)
      (sort_by (λ item. item.name) items) ""
