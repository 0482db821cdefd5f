-- ===== src/Config/Reader/Main.antt =====
-- The main configuration reads back as the sections that it was written from.
use mathlib.Core.List
use text.Mathlib.TextLemmas.{append-nil}
use fluentbit_operator.Prelude.{
  ◌≡◌, refl, sym, ap, ◌∙◌, ℕ, String, Option, List, [], ◌∷◌, map, codes, All,
}
use fluentbit_operator.Result.{Result, ok, ◌>>=◌}
use fluentbit_operator.Plugins.{SecretLoader}
use fluentbit_operator.Config.Service.{Service}
use fluentbit_operator.Config.Input.{Input}
use fluentbit_operator.Config.Filter.{Filter}
use fluentbit_operator.Config.Output.{Output}
use fluentbit_operator.Config.Render.{render_main_config}
use fluentbit_operator.Config.Sections.{Section, print}
use fluentbit_operator.Config.Sections.Main.{
  MainConfig, main_config, main_text, output_text, render_main_config-eq,
}
use fluentbit_operator.Config.Reader.{read, read_as, read_lines, lines, ReadSection, IsReadable}
use fluentbit_operator.Config.Reader.RoundTrip.{read-print}

abbrev pub null_section : Section
null_section = record { header = "Output"; entries = ("Name", "null") ∷ ("Match", "*") ∷ [] }

-- The outputs that Fluent Bit gets: a null output where there are inputs and no output.
unfoldable pub outputs_or_null : List Section → List Section → List Section
outputs_or_null is (o ∷ os) = o ∷ os
outputs_or_null [] [] = []
outputs_or_null (i ∷ is) [] = null_section ∷ []

-- Every part of the configuration can be read back.
pub record AllReadable (m : MainConfig) : Type 0 where
  pub service : All IsReadable m.service
  pub inputs : All IsReadable m.inputs
  pub filters : All IsReadable m.filters
  pub outputs : All IsReadable m.outputs

read-nothing :
    ◌≡◌ {A = List (List ℕ × List ℕ) × List ReadSection} (read_lines (lines (codes ""))) ([], [])
unfolding read
read-nothing = refl

pub read-all :
    (ss : List Section)
    → All IsReadable ss
    → read_lines (lines (codes (print ss))) ≡ ([], map read_as ss)
read-all ss h =
    ap (λ t. read_lines (lines (codes t))) (sym (append-nil (print ss)))
    ∙ read-print ss "" [] h read-nothing
    ∙ ap (λ l. ([], l)) (List.append-nil (map read_as ss))

read-outputs :
    (is os : List Section)
    → All IsReadable os
    → read_lines (lines (codes (output_text is os))) ≡ ([], map read_as (outputs_or_null is os))
unfolding output_text outputs_or_null
read-outputs [] [] h = unfold read in refl
read-outputs (i ∷ is) [] h = unfold read read_as in refl
read-outputs is (o ∷ os) h = read-all (o ∷ os) h

read-main_text :
    (m : MainConfig)
    → AllReadable m
    → read (codes (main_text m))
      ≡ List.◌++◌ (map read_as m.service) (
          List.◌++◌
            (map read_as m.inputs)
            (List.◌++◌ (map read_as m.filters) (map read_as (outputs_or_null m.inputs m.outputs))))
unfolding main_text read
read-main_text m h =
    ap (λ (r : List (List ℕ × List ℕ) × List ReadSection). r.1)
      (read-print m.service _ _ h.service (
        read-print m.inputs _ _ h.inputs
          (read-print m.filters _ _ h.filters (read-outputs m.inputs m.outputs h.outputs))))

-- Where no plugin fails, so that there is a configuration as data, and every value, header and name of
-- it keeps to its line, `RenderMainConfig` returns a text, which reads back as the sections of the
-- service, the inputs, the filters and the outputs, in this order, with a null output where there are
-- inputs and no output.
pub render_main_config-read :
    (service : Option Service) (sl : SecretLoader) (inputs : List Input) (filters : List Filter)
    (outputs : List Output) (m : MainConfig)
    → main_config service sl inputs filters outputs ≡ ok m
    → AllReadable m
    → (text : String) × (render_main_config service sl inputs filters outputs ≡ ok text)
      × (read (codes text)
          ≡ List.◌++◌ (map read_as m.service) (
              List.◌++◌ (map read_as m.inputs) (
                List.◌++◌
                  (map read_as m.filters)
                  (map read_as (outputs_or_null m.inputs m.outputs)))))
render_main_config-read service sl inputs filters outputs m e h = (
  main_text m,
  render_main_config-eq service sl inputs filters outputs
      ∙ ap (λ (r : Result MainConfig). r >>= λ m'. ok (main_text m')) e,
  read-main_text m h,
)
