-- ===== src/Plugins/Sane/Input.antt =====
-- The input plugins.
use Prim.Native.String.{◌++◌}
use fluentbit_operator.Prelude.{
  refl, ℕ, ◌+◌, String, List, [], ◌∷◌, ℤ, pos, negsuc, zero, suc, show_ℕ,
}
use fluentbit_operator.Params.{Kvs}
use fluentbit_operator.Params.Sane.{IsWord, IsSane, IsSaneOption, Ensures, insert-IsAligned}
use fluentbit_operator.Params.Words.{IsWord-append, show_ℕ-plain}
use fluentbit_operator.Plugins.{SecretLoader}
use fluentbit_operator.Plugins.Rules.{step_rules}
use fluentbit_operator.Plugins.Input.{InputPlugin, dummy, tail, systemd, params}
use fluentbit_operator.Plugins.Input.Dummy
use fluentbit_operator.Plugins.Input.Tail
use fluentbit_operator.Plugins.Input.Tail.{insert_numbered}
use fluentbit_operator.Plugins.Input.Systemd
use fluentbit_operator.Plugins.Input.Systemd.{insert_rune}

insert_numbered-IsSane :
    (n : ℕ) (ps : List String) {kvs : Kvs} → IsSane kvs → IsSane (insert_numbered n ps kvs)
unfolding insert_numbered
insert_numbered-IsSane n [] h = h
insert_numbered-IsSane n (p ∷ ps) h = insert_numbered-IsSane (n + 1) ps (
    insert-IsAligned ("Parser_" ++ show_ℕ n) p
      (IsWord-append "Parser_" (show_ℕ n) refl (show_ℕ-plain n)) h)

insert_rune-IsSane :
    {kvs : Kvs} (key : String) (n : ℤ) → IsWord key → IsSane kvs → IsSane (insert_rune key n kvs)
unfolding insert_rune
insert_rune-IsSane key (pos zero) w h = h
insert_rune-IsSane key (pos (suc n)) w h = insert-IsAligned key _ w h
insert_rune-IsSane key (negsuc n) w h = h

-- What an input plugin returns pairs off keys and values, and its keys are words.
pub input_params-IsSane : (sl : SecretLoader) (p : InputPlugin) → Ensures IsSaneOption (params sl p)
unfolding params Dummy.params Tail.params Systemd.params
input_params-IsSane sl (dummy p) = search step_rules depth 40
input_params-IsSane sl (tail p) = search (step_rules, insert_numbered-IsSane) depth 40
input_params-IsSane sl (systemd p) = search (step_rules, insert_rune-IsSane) depth 40
