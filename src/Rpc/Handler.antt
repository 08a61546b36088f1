-- ===== src/Rpc/Handler.antt =====
-- handler.go: the table of methods, and how one request is answered.
mod Actions
pub mod Span
pub mod Tables
pub mod Answers
pub mod Returns
pub mod Fails
pub mod Channels
pub mod Modes
pub mod Http
pub mod Typing
pub mod Calling
mod Examples
pub use Actions.*
use Prim.Native.String.{◌++◌ as ◌<>◌}
use mathlib.Core.Option
use lotus_dashboard.Common.{
  ℕ, zero, suc, ◌+◌, ◌-◌, String, List, [], ◌∷◌, ◌++◌, Bool, true, false, not, ◌&&◌, Option, none,
  some, Fault, Result, ok, fault, ◌>>=◌, or_fault, index_out_of_range, nil_dereference, nil_call,
  length, get_elem?, if◌then◌else◌, ◌==◌, leb, string_eq, nat_eq,
}
use lotus_dashboard.Common.Int.{ℤ, pos}
use lotus_dashboard.Common.Dict.{Dict, lookup, insert}
use lotus_dashboard.Rpc.Message.{
  Bytes, Param, Request, Response, RespError, rpc_parse_error, rpc_method_not_found,
  rpc_invalid_params,
}
use lotus_dashboard.Rpc.Util.{
  GoType, FuncType, FuncOut, is_context_type, is_chan_type, process_func_out,
}

module _ (go : Reflect) where
  open go use {
    Value, Func, func_type, func_text, call, context_value, decode, value_of, interface, error_text,
    is_chan,
  }

  abbrev pub Handlers : Type 0
  Handlers = Dict String (RpcHandler Value Func)

  -- `funcType.NumIn() >= 2 && funcType.In(1) == contextType`; the receiver is input 0.
  unfoldable pub takes_context : List GoType → Bool
  takes_context (r ∷ t ∷ ts) = is_context_type t
  takes_context _ = false

  -- `In(i + 1 + hasCtx)` for each i: the inputs behind the receiver and the context.
  unfoldable pub receivers_of : Bool → List GoType → List GoType
  receivers_of true (r ∷ c ∷ ts) = ts
  receivers_of false (r ∷ ts) = ts
  receivers_of _ _ = []

  -- The `rpcHandler` literal of `register`.
  unfoldable pub make_handler : Value → Func → Result (RpcHandler Value Func)
  unfolding takes_context receivers_of
  make_handler val f =
      let ins = (func_type f).ins in
      let ctx = takes_context ins in
      let recvs = receivers_of ctx ins in
      process_func_out (func_type f) >>= λ out. ok (record {
        param_receivers = recvs;
        n_params = length recvs;
        receiver = val;
        handler_func = f;
        has_ctx = ctx;
        err_out = out.err_out;
        val_out = out.val_out;
      })

  -- `register`: the methods of the value, each under its namespace.
  unfoldable pub register : String → Value → List (String × Func) → Handlers → Result Handlers
  register namespace val [] h = ok h
  register namespace val ((name, f) ∷ ms) h = make_handler val f >>= λ r.
      register namespace val ms (insert (namespace <> ("." <> name)) r h)

  -- `handler.valOut != -1 && handler.handlerFunc.Type().Out(handler.valOut).Kind() == reflect.Chan`
  chan_at : Option ℕ → List GoType → Result Bool
  chan_at none outs = ok false
  chan_at (some i) outs = do t ← or_fault index_out_of_range (get_elem? outs i); ok (is_chan_type t)

  pub out_channel : RpcHandler Value Func → Result Bool
  unfolding chan_at
  out_channel h = chan_at h.val_out (func_type h.handler_func).outs

  -- The loop over `handler.nParams`: it stops at the first parameter that does not decode.
  -- A parameter of an interface type loses that type, and is the zero Value if it is null.
  pub decode_params : ℕ → List GoType → List (Param Value) → Result (Decoded (List Value))
  decode_params zero ts ps = ok (decoded [])
  decode_params (suc n) [] ps = fault index_out_of_range
  decode_params (suc n) (t ∷ ts) [] = fault index_out_of_range
  decode_params (suc n) (t ∷ ts) (p ∷ ps) = elim (decode t p.bytes) [
    | undecodable e ↦ ok (undecodable e)
    | decoded v ↦ decode_params n ts ps >>= λ r. elim r [
      | undecodable e ↦ ok (undecodable e)
      | decoded vs ↦ ok (decoded (value_of v ∷ vs))
    ]
  ]

  -- `doCall`: a panic of the method comes back as an error.
  do_call : String → Func → List Value → Decoded (List Value)
  do_call name f args = elim (call f args) [
    | returned out ↦ decoded out
    | panicked i ↦ undecodable ("panic in rpc method '" <> (name <> ("': " <> i)))
  ]

  -- `resp.Error`, from the result at `errOut`.
  response_error : Option ℕ → List Value → Result (Option RespError)
  response_error none out = ok none
  response_error (some i) out = or_fault index_out_of_range (get_elem? out i) >>= λ v.
      ok (Option.map (λ m. record { code = pos 1; message = m }) (error_text v))

  -- `resp.Result`, from the result at `valOut`.
  response_result : Option ℕ → List Value → Result (Option Value)
  response_result none out = ok none
  response_result (some i) out =
      or_fault index_out_of_range (get_elem? out i) >>= λ v. ok (interface v)

  -- `callResult[handler.valOut]`
  result_at : Option ℕ → List Value → Option Value
  result_at none out = none
  result_at (some i) out = get_elem? out i

  -- The callback that `w` runs: a channel is replaced by what `chOut` gives for it, and `Encode` is
  -- called. Its error changes nothing that `handle` does.
  write_response :
      Option (Value → Value) → Option ℕ → List Value → Response Value → Result (List (Action Value))
  unfolding result_at
  write_response ch_out val_out out resp = elim resp.result [
    | none ↦ ok (written resp ∷ [])
    | some v ↦
        if is_chan v
        then (do
          f ← or_fault nil_call ch_out
          c ← or_fault index_out_of_range (result_at val_out out)
          ok (registered c ∷ written (record resp { result = some (f c) }) ∷ []))
        else ok (written resp ∷ [])
  ]

  -- From the results of the call to the response.
  respond :
      RpcHandler Value Func
      → Request Value
      → Option (Value → Value)
      → List Value
      → Result (List (Action Value))
  unfolding response_error response_result write_response
  respond h req ch_out out = do
    id ← or_fault nil_dereference req.id
    e ← response_error h.err_out out
    r ← response_result h.val_out out
    write_response ch_out h.val_out out (record { jsonrpc = "2.0"; result = r; id = id; error = e })

  -- `callParams`: the receiver, the context if the method takes one, and the parameters.
  unfoldable pub call_params : RpcHandler Value Func → ℕ → List Value → List Value
  call_params h ctx vs = h.receiver ∷ (if h.has_ctx then context_value ctx ∷ vs else vs)

  -- `handle` from the result of `doCall`: the error of a panic, or the response.
  run_called :
      RpcHandler Value Func
      → Request Value
      → Option (Value → Value)
      → Decoded (List Value)
      → Result (List (Action Value))
  unfolding respond
  run_called h req ch_out (undecodable e) =
      ok (rejected (pos 0) ("fatal error calling '" <> (req.method <> ("': " <> e))) ∷ [])
  run_called h req ch_out (decoded out) = respond h req ch_out out

  -- `handle` from the end of the loop over the parameters.
  run_decoded :
      RpcHandler Value Func
      → ℕ
      → Request Value
      → Option (Value → Value)
      → Decoded (List Value)
      → Result (List (Action Value))
  unfolding run_called do_call call_params
  run_decoded h ctx req ch_out (undecodable e) = ok (
      rejected rpc_parse_error
        ("unmarshaling params for '" <> (func_text h.handler_func <> ("': " <> e)))
      ∷ [])
  run_decoded h ctx req ch_out (decoded vs) =
      run_called h req ch_out (do_call req.method h.handler_func (call_params h ctx vs))

  -- `handle` from the loop over the parameters to its end, what `done` is deferred over.
  run_method :
      RpcHandler Value Func
      → ℕ
      → Request Value
      → Option (Value → Value)
      → Result (List (Action Value))
  unfolding decode_params run_decoded
  run_method h ctx req ch_out =
      decode_params h.n_params h.param_receivers req.params >>= run_decoded h ctx req ch_out

  -- `chOut == nil && outChannel`
  pub lacks_channels : Option (Value → Value) → Bool → Bool
  lacks_channels none keep = keep
  lacks_channels (some f) keep = false

  handle_found : RpcHandler Value Func → ℕ → Request Value → Option (Value → Value) → Outcome Value
  unfolding out_channel run_method lacks_channels
  handle_found h ctx req ch_out = elim (out_channel h) [
    | fault e ↦ record { actions = []; failed = some e }
    | ok keep ↦ deferred keep (
        if lacks_channels ch_out keep
        then ok (
            rejected rpc_method_not_found (
              "method '" <> (req.method <> "' not supported in this mode (no out channel support)"))
            ∷ [])
        else run_method h ctx req ch_out)
  ]

  -- `handlers.handle`, at the context that `getSpan` has given.
  unfoldable pub handle : Handlers → ℕ → Request Value → Option (Value → Value) → Outcome Value
  unfolding handle_found
  handle hs ctx req ch_out = elim (lookup req.method hs) [
    | none ↦ returns (
        rejected rpc_method_not_found ("method '" <> (req.method <> "' not found"))
        ∷ finished false
        ∷ [])
    | some h ↦
        if length req.params == h.n_params
        then handle_found h ctx req ch_out
        else returns (rejected rpc_invalid_params "wrong param count" ∷ finished false ∷ [])
  ]
