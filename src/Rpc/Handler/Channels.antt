-- ===== src/Rpc/Handler/Channels.antt =====
-- What `handle` writes over a websocket for a method that returns a channel.
use mathlib.Core.Path.{subst}
use lotus_dashboard.Common.{
  ℕ, ◌≡◌, refl, sym, ◌∙◌, List, [], ◌∷◌, map, true, none, some, ok, length, ◌==◌, nat_beq_iff,
  nat_eq, string_eq,
}
use lotus_dashboard.Common.Int.{ℤ}
use lotus_dashboard.Common.Dict.{lookup}
use lotus_dashboard.Rpc.Message.{Request, Response}
use lotus_dashboard.Rpc.Util.{GoType, chan_type, error_type}
use lotus_dashboard.Rpc.Handler.{
  Reflect, returned, RpcHandler, Handlers, registered, finished, written, make_handler, returns,
  handle, handle_found, out_channel, chan_at, run_method, run_called, run_decoded, do_call, respond,
  response_error, response_result, write_response, call_params, lacks_channels, result_at,
}
use lotus_dashboard.Rpc.Handler.Returns.{
  Decodes, decode_params-Decodes, length-Decodes, make_handler_lem,
}

module _ (go : Reflect) where
  open go use {Value, Func, func_type, call, error_text, interface, is_chan}

  -- What a method with a channel and an error does at an argument list: it returns a channel.
  pub record ReturnsChannel (f : Func) (args : List Value) (t : GoType) (v : Value) : Type 0 where
    pub outs : (func_type f).outs ≡ chan_type t ∷ error_type ∷ []
    pub err : Value
    pub called : call f args ≡ returned (v ∷ err ∷ [])
    pub no_error : error_text err ≡ none
    pub not_nil : interface v ≡ some v
    pub a_channel : is_chan v ≡ true

  -- The response with what stands for the channel.
  abbrev pub channel_response : ℤ → Value → Response Value
  channel_response n v = record { jsonrpc = "2.0"; result = some v; id = n; error = none }

  respond-ReturnsChannel :
      (h : RpcHandler Value Func) (req : Request Value) (ch_out : Value → Value) (n : ℤ)
      (args : List Value) (t : GoType) (v : Value)
      → h.val_out ≡ some 0
      → h.err_out ≡ some 1
      → req.id ≡ some n
      → (r : ReturnsChannel h.handler_func args t v)
      → respond go h req (some ch_out) (v ∷ r.err ∷ [])
        ≡ ok (registered v ∷ written (channel_response n (ch_out v)) ∷ [])
  unfolding respond response_error response_result write_response
  respond-ReturnsChannel h req ch_out n args t v ev ee id r =
      rw (id, ev, ee, r.no_error, r.not_nil, r.a_channel) (rw (ev, result_at) refl)

  run_method-ReturnsChannel :
      (h : RpcHandler Value Func) (ctx : ℕ) (req : Request Value) (ch_out : Value → Value)
      (vs : List Value) (t : GoType) (v : Value)
      → h.n_params ≡ length h.param_receivers
      → Decodes go h.param_receivers (map (λ p. p.bytes) req.params) vs
      → (r : ReturnsChannel h.handler_func (call_params go h ctx vs) t v)
      → run_method go h ctx req (some ch_out) ≡ respond go h req (some ch_out) (v ∷ r.err ∷ [])
  unfolding run_method run_decoded run_called do_call
  run_method-ReturnsChannel h ctx req ch_out vs t v en d r =
      rw (en, decode_params-Decodes go h.param_receivers req.params vs d)
        (rw (r.called, run_called) refl)

  -- A call of a method in the table that returns a channel, over a websocket: the channel is
  -- registered, the response holds what `chOut` gives for it, and `done` keeps the context.
  pub handle-ReturnsChannel :
      (hs : Handlers go) (ctx : ℕ) (req : Request Value) (ch_out : Value → Value) (n : ℤ)
      (val : Value) (f : Func) (h : RpcHandler Value Func) (vs : List Value) (t : GoType)
      (v : Value)
      → lookup req.method hs ≡ some h
      → make_handler go val f ≡ ok h
      → req.id ≡ some n
      → Decodes go h.param_receivers (map (λ p. p.bytes) req.params) vs
      → ReturnsChannel f (call_params go h ctx vs) t v
      → handle go hs ctx req (some ch_out)
        ≡ returns (registered v ∷ written (channel_response n (ch_out v)) ∷ finished true ∷ [])
  unfolding handle handle_found out_channel chan_at lacks_channels
  handle-ReturnsChannel hs ctx req ch_out n val f h vs t v found made id d r =
      let (ef, ev, ee, en) = make_handler_lem go val f h (chan_type t) r.outs made in
      let r' = subst (λ g. ReturnsChannel g (call_params go h ctx vs) t v) (sym ef) r in
      let fits = length-Decodes go h.param_receivers req.params vs d in
      let count : (length req.params == h.n_params) ≡ true = (nat_beq_iff _ _).1 (fits ∙ sym en) in
      let keeps : out_channel go h ≡ ok true = rw (ev, r'.outs) refl in
      let runs =
        run_method-ReturnsChannel h ctx req ch_out vs t v en d r'
        ∙ respond-ReturnsChannel h req ch_out n _ t v ev ee id r' in
      rw (found, count, handle) (rw (keeps, handle_found, runs) refl)
