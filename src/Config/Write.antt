-- ===== src/Config/Write.antt =====
-- The loops that the four `Load` methods of input_types.go, filter_types.go, output_types.go and
-- parser_types.go share, over their closure `merge`. The buffer that an error leaves is not returned.
use Prim.Native.String.{◌++◌}
use fluentbit_operator.Prelude.{String, ◌==◌, Option, none, some, List, [], ◌∷◌, if◌then◌else◌}
use fluentbit_operator.Result.{Result, ok, ◌>>=◌}
use fluentbit_operator.Params.{Kvs, line, to_string}

-- `if x != "" { buf.WriteString(fmt.Sprintf("    <key>    %s\n", x)) }`
unfoldable pub write_text : String → String → String → String
write_text key x buf = if x == "" then buf else buf ++ line key x

-- `kvs, err := p.Params(sl); if err != nil { return err }; buf.WriteString(kvs.String())`
unfoldable pub write_params : Result (Option Kvs) → String → Result String
unfolding to_string
write_params params buf = do kvs ← params; text ← to_string kvs; ok (buf ++ text)

module _ {P : Type 0} (merge : P → String → Result String) where
  -- The loop over the fields of a spec by `reflect`. A field that holds no plugin, or a nil one, is
  -- `none`, for which `merge` returns at once.
  unfoldable pub write_fields : List (Option P) → String → Result String
  write_fields [] buf = ok buf
  write_fields (none ∷ ps) buf = write_fields ps buf
  write_fields (some p ∷ ps) buf = do buf ← merge p buf; write_fields ps buf

module _ {A : Type 0} (write : A → String → Result String) where
  -- The loop over the items.
  unfoldable pub write_items : List A → String → Result String
  write_items [] buf = ok buf
  write_items (x ∷ xs) buf = do buf ← write x buf; write_items xs buf
