-- ===== src/Rpc/Client.antt =====
-- client.go: a struct field of function type becomes a remote call; how a call is made into a
-- request, and its answer into results.
pub mod Send
pub mod Sink
pub mod Connect
pub mod Errors
pub mod Returns
pub mod Typing
pub mod Ids
pub mod Closer
pub mod Closed
pub mod Plain
pub mod Channels
mod Examples
use Prim.Native.String.{◌++◌ as ◌<>◌}
use lotus_dashboard.Common.{
  ℕ, zero, suc, String, List, [], ◌∷◌, map, Bool, true, false, not, ◌&&◌, Option, none, some, Fault,
  Result, ok, fault, ◌>>=◌, or_fault, index_out_of_range, nil_dereference, length, get_elem?, set,
  replicate, ltb, ◌==◌, if◌then◌else◌,
}
use lotus_dashboard.Common.Int.{ℤ, int_eq, int64_succ}
use lotus_dashboard.Rpc.Message.{
  Bytes, Param, Request, RespError, IdPointer, nil, own, loop_variable, ClientResponse,
}
use lotus_dashboard.Rpc.Util.{
  GoType, FuncType, FuncOut, is_context_type, is_chan_type, process_func_out, unmarshal_json,
}
use lotus_dashboard.Rpc.Handler.{Decoded, decoded, undecodable}

-- The packages reflect, encoding/json and trace, as the client uses them.
pub record ClientSide (V : Type 0) : Type 0 where
  pub zero_value : GoType → V  -- `reflect.New(t).Elem()`
  pub marshal : V → Option Bytes  -- json.Marshal
  pub unmarshal : GoType → Bytes → Decoded V  -- json.Unmarshal into a new value of the type
  pub span_binary : ℕ → Bytes  -- propagation.Binary of a call's new span, by the call's number
  pub base64_encode : Bytes → String

-- The type of a struct field.
pub data FieldType : Type 0 where
  func : FuncType → FieldType
  other_type : FieldType

pub record Field : Type 0 where
  pub name : String
  pub type : FieldType

-- `rpcFunc`, with the namespace of its client.
pub record RpcFunc : Type 0 where
  pub namespace : String
  pub ftyp : FuncType
  pub name : String
  pub nout : ℕ
  pub val_out : Option ℕ
  pub err_out : Option ℕ
  pub has_ctx : Bool
  pub ret_ch : Bool

-- A result, or the text of an error.
pub data Made : Type 0 where
  made : RpcFunc → Made
  refused : String → Made

-- An entry of `[]reflect.Value` with the results of a call: the zero Value, a value, or an error.
pub data Slot (V : Type 0) : Type 0 where
  unset : Slot V
  value : V → Slot V
  error : Option RespError → Slot V

-- `ftyp.NumIn() > 0 && ftyp.In(0) == contextType`
abbrev pub first_is_context : List GoType → Bool
first_is_context [] = false
first_is_context (t ∷ ts) = is_context_type t

-- `fun.valOut != -1 && ftyp.Out(fun.valOut).Kind() == reflect.Chan`
returns_chan : Option ℕ → List GoType → Result Bool
returns_chan none outs = ok false
returns_chan (some i) outs = do
  t ← or_fault index_out_of_range (get_elem? outs i)
  ok (is_chan_type t)

-- `makeRpcFunc`, on the field's name and type.
make_for : String → String → FieldType → Result Made
unfolding returns_chan
make_for namespace name other_type = ok (refused "handler field not a func")
make_for namespace name (func t) = do
  out ← process_func_out t
  chan ← returns_chan out.val_out t.outs
  ok (
      made (record {
        namespace = namespace;
        ftyp = t;
        name = name;
        nout = out.n;
        val_out = out.val_out;
        err_out = out.err_out;
        has_ctx = first_is_context t.ins;
        ret_ch = chan;
      }))

unfoldable pub make_rpc_func : String → Field → Result Made
unfolding make_for
make_rpc_func namespace f = make_for namespace f.name f.type

-- `out[i] = slot`, where the index is set.
unfoldable pub put : {V : Type 0} → Option ℕ → Slot V → List (Slot V) → Result (List (Slot V))
put none s out = ok out
put (some i) s out = if ltb i (length out) then ok (set out i s) else fault index_out_of_range

-- `processResponse`.
unfoldable pub process_response :
    {V : Type 0} → RpcFunc → Option RespError → V → Result (List (Slot V))
unfolding put
process_response fn err rval = do
  out ← put fn.val_out (value rval) (replicate fn.nout unset)
  put fn.err_out (error err) out

-- What `*resp.ID` reads, the loop variable of the closing connection having the given value.
unfoldable pub dereference : ℤ → IdPointer → Option ℤ
dereference loop nil = none
dereference loop (own n) = some n
dereference loop loop_variable = some loop

-- What `sendRequest` gives back: the connection was exiting, or an answer came.
pub data Sent : Type 0 where
  exiting : Sent
  answered : ClientResponse → Sent

module _ {V : Type 0} (cs : ClientSide V) where
  open cs use {zero_value, marshal, unmarshal, span_binary, base64_encode}

  -- The zero value of the value result, if there is one.
  unfoldable pub zero_result : RpcFunc → Result (Slot V)
  zero_result fn = elim fn.val_out [
    | none ↦ ok unset
    | some i ↦
        or_fault index_out_of_range (get_elem? fn.ftyp.outs i) >>= λ t. ok (value (zero_value t))
  ]

  -- `processError`. The line that would store the error is commented out: the error result is the
  -- nil error.
  unfoldable pub process_error : RpcFunc → Result (List (Slot V))
  unfolding put zero_result
  process_error fn = do
    z ← zero_result fn
    out ← put fn.val_out z (replicate fn.nout unset)
    put fn.err_out (error none) out

  -- `MarshalJson` and then `UnmarshalJson`; an error of the first is dropped, with no bytes.
  unfoldable pub make_param : V → Param V
  make_param v =
      unmarshal_json (record { bytes = []; value = some v })
        (elim (marshal v) [ none ↦ [] | some b ↦ b ])

  unfoldable pub make_params : List V → List (Param V)
  unfolding make_param
  make_params = map make_param

  -- `args[fn.hasCtx:]`
  unfoldable pub arguments : Bool → List V → List V
  arguments true [] = []
  arguments true (ctx ∷ args) = args
  arguments false args = args

  -- The request of `handleRpcCall`, at the value that the client's counter has had.
  unfoldable pub make_request : RpcFunc → ℤ → ℕ → List V → Request V
  unfolding make_params arguments
  make_request fn ctr span args = record {
    jsonrpc = "2.0";
    id = some (int64_succ ctr);
    method = fn.namespace <> ("." <> fn.name);
    params = make_params (arguments fn.has_ctx args);
    meta =
        if fn.has_ctx then some (("SpanContext", base64_encode (span_binary span)) ∷ []) else none;
  }

  -- The value result of an answer. Where the result is missing, it is the zero value.
  unfoldable pub result_value : GoType → Option Bytes → Decoded V
  result_value t none = decoded (zero_value t)
  result_value t (some b) = unmarshal t b

  finish_value : RpcFunc → ClientResponse → Decoded V → Result (List (Slot V))
  unfolding process_response process_error
  finish_value fn resp (decoded v) = process_response fn resp.error v
  finish_value fn resp (undecodable e) = process_error fn

  -- No value result: only the error is set.
  finish_plain : RpcFunc → ClientResponse → Result (List (Slot V))
  unfolding put
  finish_plain fn resp = put fn.err_out (error resp.error) (replicate fn.nout unset)

  -- `handleRpcCall` from the matching answer on; `chan` is what `retVal()` gives for a channel.
  finish_answer : RpcFunc → V → ClientResponse → Result (List (Slot V))
  unfolding finish_value finish_plain result_value
  finish_answer fn chan resp = elim fn.val_out [
    | none ↦ finish_plain fn resp
    | some i ↦ if fn.ret_ch then process_response fn resp.error chan else (do
      t ← or_fault index_out_of_range (get_elem? fn.ftyp.outs i)
      finish_value fn resp (result_value t resp.result))
  ]

  -- `handleRpcCall` behind `sendRequest`, for the request id `id`.
  unfoldable pub finish_call : RpcFunc → ℤ → ℤ → V → Sent → Result (List (Slot V))
  unfolding finish_answer process_error dereference
  finish_call fn id loop chan exiting = process_error fn
  finish_call fn id loop chan (answered resp) = do
    got ← or_fault nil_dereference (dereference loop resp.id)
    if got == id then finish_answer fn chan resp else process_error fn
