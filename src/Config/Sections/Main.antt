-- ===== src/Config/Sections/Main.antt =====
-- What `RenderMainConfig` writes: the sections of the service, the inputs, the filters and the outputs;
-- where there are inputs and no outputs, a null output in their place.

use Prim.Native.String.{◌++◌}
use text.Mathlib.TextLemmas.{nil-append, append-nil, cons-append, append_assoc, cons≢nil}
use fluentbit_operator.Prelude.{
  ◌≡◌, refl, sym, ap, ◌∙◌, String, ◌==◌, false, Option, none, some, List, [], ◌∷◌, eq_iff,
  Bool-cases, inl, inr,
}
use fluentbit_operator.Result.{Result, ok, err, ◌>>=◌}
use fluentbit_operator.Params.Sane.{IsAligned, AnyKey}
use fluentbit_operator.Params.Render.{entries, to_string-eq-print}
use fluentbit_operator.Plugins.{SecretLoader}
use fluentbit_operator.Plugins.Rules.{step_rules}
use fluentbit_operator.Config.Service
use fluentbit_operator.Config.Service.{Service}
use fluentbit_operator.Config.Input.{Input}
use fluentbit_operator.Config.Filter.{Filter}
use fluentbit_operator.Config.Output.{Output}
use fluentbit_operator.Config.Render.{
  render_service, null_output, default_output, render_main_config,
}
use fluentbit_operator.Config.Sections.{Section, headline, print_section, print}
use fluentbit_operator.Config.Sections.Load.{behind}
use fluentbit_operator.Config.Sections.Input as Inputs
use fluentbit_operator.Config.Sections.Filter as Filters
use fluentbit_operator.Config.Sections.Output as Outputs

unfoldable pub service_sections : Option Service → List Section
unfolding Service.params entries
service_sections none = []
service_sections (some s) =
    (record { header = "Service"; entries = entries (some (Service.params s)) }) ∷ []

-- The configuration as data.
pub record MainConfig : Type 0 where
  pub service : List Section
  pub inputs : List Section
  pub filters : List Section
  pub outputs : List Section

unfoldable pub main_config :
    Option Service → SecretLoader → List Input → List Filter → List Output → Result MainConfig
unfolding service_sections Inputs.sections Filters.sections Outputs.sections
main_config service sl inputs filters outputs = do
  is ← Inputs.sections sl inputs
  fs ← Filters.sections sl filters
  os ← Outputs.sections sl outputs
  ok (record { service = service_sections service; inputs = is; filters = fs; outputs = os })

-- The outputs of a configuration: those that are there, or a null output for the inputs.
unfoldable pub output_text : List Section → List Section → String
unfolding print
output_text inputs (o ∷ os) = print (o ∷ os)
output_text [] [] = ""
output_text (i ∷ is) [] = null_output

unfoldable pub main_text : MainConfig → String
unfolding print output_text
main_text m = print m.service ++ print m.inputs ++ print m.filters ++ output_text m.inputs m.outputs

service_params-IsAligned : (s : Service) → IsAligned AnyKey (Service.params s)
unfolding Service.params
service_params-IsAligned s = search (step_rules, tt) depth 20

headline_service : headline "Service" ≡ "[Service]\n"
unfolding headline
headline_service = refl

render_service-eq :
    (service : Option Service) → render_service service ≡ ok (print (service_sections service))
unfolding service_sections print print_section
render_service-eq none = unfold render_service in refl
render_service-eq (some s) =
    unfold render_service in
    rw (to_string-eq-print (some (Service.params s)) (service_params-IsAligned s), headline_service)
      (ap ok (sym (append-nil _)))

bracket_nonempty : (t : String) → ("[" ++ t == "") ≡ false
bracket_nonempty t = elim (Bool-cases ("[" ++ t == "")) [
  | inl e ↦ absurd (cons≢nil (sym (cons-append "[" "" t) ∙ (eq_iff ("[" ++ t) "").0 e))
  | inr e ↦ e
]

print-cons_nonempty : (s : Section) (ss : List Section) → (print (s ∷ ss) == "") ≡ false
unfolding print print_section headline
print-cons_nonempty s ss = simp (append_assoc, bracket_nonempty)

default_output-eq :
    (is os : List Section) → default_output (print is) (print os) ≡ output_text is os
unfolding default_output output_text
default_output-eq [] [] = unfold print in refl
default_output-eq [] (o ∷ os) = unfold print in refl
default_output-eq (i ∷ is) [] = rw (print-cons_nonempty i is) (unfold print in refl)
default_output-eq (i ∷ is) (o ∷ os) =
    rw (print-cons_nonempty i is) (rw (print-cons_nonempty o os) (unfold print in refl))

-- The end of `RenderMainConfig` on what the three `Load` calls print.
assemble :
    (service : List Section) (i f o : Result (List Section))
    → (behind print "" i >>= λ is. behind print "" f >>= λ fs.
        behind print "" o >>= λ os. ok (print service ++ is ++ fs ++ default_output is os))
      ≡ ((i >>= λ is. f >>= λ fs.
            o >>= λ os. ok (record { service = service; inputs = is; filters = fs; outputs = os }))
          >>= λ m. ok (main_text m))
unfolding main_text
assemble service (err e) f o = refl
assemble service (ok is) (err e) o = refl
assemble service (ok is) (ok fs) (err e) = refl
assemble service (ok is) (ok fs) (ok os) = simp (nil-append, default_output-eq)

-- `RenderMainConfig` writes the text of the configuration, and fails exactly where a plugin of it
-- fails, with the error of the first.
pub render_main_config-eq :
    (service : Option Service) (sl : SecretLoader) (inputs : List Input) (filters : List Filter)
    (outputs : List Output)
    → render_main_config service sl inputs filters outputs
      ≡ (main_config service sl inputs filters outputs >>= λ m. ok (main_text m))
unfolding render_main_config main_config
render_main_config-eq service sl inputs filters outputs =
    rw
      (
        render_service-eq service,
        Inputs.input_load-eq-print,
        Filters.filter_load-eq-print,
        Outputs.output_load-eq-print,
      )
      (assemble (service_sections service) (Inputs.sections sl inputs) (Filters.sections sl filters)
        (Outputs.sections sl outputs))
