-- ===== src/Config/Reader/Parser.antt =====
-- The parsers file reads back as the sections of the parsers.
use text.Mathlib.TextLemmas.{nil-append}
use fluentbit_operator.Prelude.{◌≡◌, ap, ◌∙◌, String, List, map, codes, All}
use fluentbit_operator.Result.{Result, ok}
use fluentbit_operator.Plugins.{SecretLoader}
use fluentbit_operator.Config.Parser.{Parser}
use fluentbit_operator.Config.Render.{render_parser_config}
use fluentbit_operator.Config.Sections.{Section, print}
use fluentbit_operator.Config.Sections.Load.{behind}
use fluentbit_operator.Config.Sections.Parser.{sections, parser_load-eq-print}
use fluentbit_operator.Config.Reader.{read, read_as, IsReadable}
use fluentbit_operator.Config.Reader.Main.{read-all}

-- Where no parser fails, so that there are sections, and every value, header and name of them keeps to its line,
-- `RenderParserConfig` returns a text, which reads back as the sections of the parsers, sorted by name, each with its
-- decoders at the end.
pub render_parser_config-read :
    (sl : SecretLoader) (parsers : List Parser) (ss : List Section)
    → sections sl parsers ≡ ok ss
    → All IsReadable ss
    → (text : String) × (render_parser_config sl parsers ≡ ok text)
      × (read (codes text) ≡ map read_as ss)
unfolding render_parser_config read
render_parser_config-read sl parsers ss e h = (
  print ss,
  parser_load-eq-print sl parsers
      ∙ ap (λ (r : Result (List Section)). behind print "" r) e
      ∙ ap ok (nil-append (print ss)),
  ap (λ r. r.1) (read-all ss h),
)
