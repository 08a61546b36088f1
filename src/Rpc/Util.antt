-- ===== src/Rpc/Util.antt =====
-- util.go: what a function type returns, and the bytes of a parameter.
pub mod Outputs
use lotus_dashboard.Common.{
  ℕ, List, [], ◌∷◌, Bool, true, false, Option, none, some, String, Fault, Result, ok, fault,
  explicit_panic, length, if◌then◌else◌,
}
use lotus_dashboard.Rpc.Message.{Bytes, Param}

-- reflect.Type, as far as the package asks about it: `== errorType`, `== contextType`,
-- `Kind() == Chan`, and all else.
pub data GoType : Type 0 where
  error_type context_type : GoType
  chan_type : GoType → GoType
  named : String → GoType

abbrev pub is_error_type : GoType → Bool
is_error_type GoType.error_type = true
is_error_type _ = false

abbrev pub is_context_type : GoType → Bool
is_context_type GoType.context_type = true
is_context_type _ = false

abbrev pub is_chan_type : GoType → Bool
is_chan_type (GoType.chan_type _) = true
is_chan_type _ = false

-- A function type: its inputs and its outputs.
pub record FuncType : Type 0 where
  pub ins : List GoType
  pub outs : List GoType

-- The named results of `processFuncOut`; an index of -1 is `none`.
pub record FuncOut : Type 0 where
  pub val_out : Option ℕ
  pub err_out : Option ℕ
  pub n : ℕ

-- The `switch` on the number of outputs.
unfoldable pub process_outs : List GoType → Result FuncOut
process_outs [] = ok (record { val_out = none; err_out = none; n = 0 })
process_outs (t ∷ []) =
    if is_error_type t
    then ok (record { val_out = none; err_out = some 0; n = 1 })
    else ok (record { val_out = some 0; err_out = none; n = 1 })
process_outs (t ∷ u ∷ []) =
    if is_error_type u
    then ok (record { val_out = some 0; err_out = some 1; n = 2 })
    else fault explicit_panic
process_outs (t ∷ u ∷ v ∷ r) = fault explicit_panic

unfoldable pub process_func_out : FuncType → Result FuncOut
unfolding process_outs
process_func_out f = process_outs f.outs

-- `UnmarshalJson`: a copy of the bytes; it never fails.
unfoldable pub unmarshal_json : {V : Type 0} → Param V → Bytes → Param V
unmarshal_json p raw = record p { bytes = raw }
