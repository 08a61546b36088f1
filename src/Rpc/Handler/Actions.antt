-- ===== src/Rpc/Handler/Actions.antt =====
-- handler.go: what `handle` needs of reflect and encoding/json, an entry of the table, and what a
-- goroutine that handles a request does.
use lotus_dashboard.Common.{
  ℕ, String, List, [], ◌∷◌, ◌++◌, Bool, Option, none, some, Fault, Result, ok, fault,
}
use lotus_dashboard.Common.Int.{ℤ}
use lotus_dashboard.Rpc.Message.{Bytes, Response}
use lotus_dashboard.Rpc.Util.{GoType, FuncType}

-- What decoding gives: a value, or the text of an error.
pub data Decoded (A : Type 0) : Type 0 where
  decoded : A → Decoded A
  undecodable : String → Decoded A

-- What a call through reflect gives: the results, or the text of a panic.
pub data Called (V : Type 0) : Type 0 where
  returned : List V → Called V
  panicked : String → Called V

-- The packages reflect and encoding/json, as the program uses them. A context is a number.
pub record Reflect : Type 1 where
  pub Value : Type 0
  pub Func : Type 0
  pub func_type : Func → FuncType
  pub func_text : Func → String  -- `%s` of a function
  pub call : Func → List Value → Called Value
  pub context_value : ℕ → Value
  pub decode : GoType → Bytes → Decoded Value  -- json decoding into a new value of the type
  pub value_of : Value → Value  -- `reflect.ValueOf(v.Interface())`: of a nil interface, no Value
  pub interface : Value → Option Value  -- `Interface()`: `none` is nil
  pub error_text : Value → Option String  -- `Interface()` of an error: nil, or what it says
  pub is_chan : Value → Bool  -- `reflect.TypeOf(v).Kind() == reflect.Chan`

pub record RpcHandler (V F : Type 0) : Type 0 where
  pub param_receivers : List GoType
  pub n_params : ℕ
  pub receiver : V
  pub handler_func : F
  pub has_ctx : Bool
  pub err_out : Option ℕ
  pub val_out : Option ℕ

-- What `handle` does, in order: a call of `rpcError`, of `done`, of `chOut`, or of `Encode` for the
-- response, through `w`. An error of `Encode` is logged only, so what comes of the call is left to
-- the writer: `delivered` of Rpc/Server, and `message_of` of Rpc/Link.
pub data Action (V : Type 0) : Type 0 where
  rejected : ℤ → String → Action V
  finished : Bool → Action V
  registered : V → Action V
  written : Response V → Action V

-- The actions of a goroutine, and the panic that ends it, if one does.
pub record Outcome (V : Type 0) : Type 0 where
  pub actions : List (Action V)
  pub failed : Option Fault

abbrev pub returns : {V : Type 0} → List (Action V) → Outcome V
returns as' = record { actions = as'; failed = none }

-- `defer done(keep)`: it runs after the body, also when that panics.
abbrev pub deferred : {V : Type 0} → Bool → Result (List (Action V)) → Outcome V
deferred keep (ok as') = record { actions = as' ++ finished keep ∷ []; failed = none }
deferred keep (fault e) = record { actions = finished keep ∷ []; failed = some e }
