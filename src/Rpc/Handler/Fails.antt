-- ===== src/Rpc/Handler/Fails.antt =====
-- What `handle` writes for a method that returns an error only.
use mathlib.Core.Path.{subst}
use lotus_dashboard.Common.{
  ℕ, ◌≡◌, refl, sym, ◌∙◌, String, List, [], ◌∷◌, map, true, false, Option, none, some, ok,
  >>=-eq-ok, arith, length, ◌==◌, nat_beq_iff, nat_eq, string_eq,
}
use lotus_dashboard.Common.Int.{ℤ}
use lotus_dashboard.Common.Dict.{lookup}
use lotus_dashboard.Rpc.Message.{Request, Response}
use lotus_dashboard.Rpc.Util.{FuncType, error_type, process_func_out, process_outs}
use lotus_dashboard.Rpc.Handler.{
  Reflect, returned, RpcHandler, Handlers, finished, written, make_handler, returns, handle,
  handle_found, out_channel, chan_at, run_method, run_called, run_decoded, do_call, respond,
  response_error, response_result, write_response, call_params,
}
use lotus_dashboard.Rpc.Handler.Returns.{
  told, Decodes, decode_params-Decodes, length-Decodes, lacks_none,
}

module _ (go : Reflect) where
  open go use {Value, Func, func_type, call, error_text}

  -- What a method with an error and no value does at an argument list.
  pub record ReturnsError (f : Func) (args : List Value) (m : Option String) : Type 0 where
    pub outs : (func_type f).outs ≡ error_type ∷ []
    pub err : Value
    pub called : call f args ≡ returned (err ∷ [])
    pub says : error_text err ≡ m

  -- The response with the text of an error, and no result.
  abbrev pub plain_response : ℤ → Option String → Response Value
  plain_response n m = record { jsonrpc = "2.0"; result = none; id = n; error = told m }

  one_out :
      (ft : FuncType)
      → ft.outs ≡ error_type ∷ []
      → process_func_out ft ≡ ok (record { val_out = none; err_out = some 0; n = 1 })
  unfolding process_func_out process_outs
  one_out ft o = rw o refl

  plain_handler_lem :
      (val : Value) (f : Func) (h : RpcHandler Value Func)
      → (func_type f).outs ≡ error_type ∷ []
      → make_handler go val f ≡ ok h
      → (h.handler_func ≡ f)
        × (h.val_out ≡ none)
        × (h.err_out ≡ some 0)
        × (h.n_params ≡ length h.param_receivers)
  unfolding make_handler
  plain_handler_lem val f h o e =
      let (out, p, q) = >>=-eq-ok (process_func_out (func_type f)) _ e in
      ground (arith, one_out (func_type f) o)

  module _ {m : Option String} where
    respond-ReturnsError :
        (h : RpcHandler Value Func) (req : Request Value) (ch_out : Option (Value → Value)) (n : ℤ)
        (args : List Value)
        → h.val_out ≡ none
        → h.err_out ≡ some 0
        → req.id ≡ some n
        → (r : ReturnsError h.handler_func args m)
        → respond go h req ch_out (r.err ∷ []) ≡ ok (written (plain_response n m) ∷ [])
    unfolding respond response_error response_result write_response
    respond-ReturnsError h req ch_out n args ev ee id r = rw (id, ev, ee, r.says) refl

    run_method-ReturnsError :
        (h : RpcHandler Value Func) (ctx : ℕ) (req : Request Value)
        (ch_out : Option (Value → Value)) (vs : List Value)
        → h.n_params ≡ length h.param_receivers
        → Decodes go h.param_receivers (map (λ p. p.bytes) req.params) vs
        → (r : ReturnsError h.handler_func (call_params go h ctx vs) m)
        → run_method go h ctx req ch_out ≡ respond go h req ch_out (r.err ∷ [])
    unfolding run_method run_decoded run_called do_call
    run_method-ReturnsError h ctx req ch_out vs en d r =
        rw (en, decode_params-Decodes go h.param_receivers req.params vs d)
          (rw (r.called, run_called) refl)

    -- A call of a method in the table that returns an error only, with parameters that decode, is
    -- answered by one response without a result, with the text of the error if it is not nil.
    pub handle-ReturnsError :
        (hs : Handlers go) (ctx : ℕ) (req : Request Value) (ch_out : Option (Value → Value)) (n : ℤ)
        (val : Value) (f : Func) (h : RpcHandler Value Func) (vs : List Value)
        → lookup req.method hs ≡ some h
        → make_handler go val f ≡ ok h
        → req.id ≡ some n
        → Decodes go h.param_receivers (map (λ p. p.bytes) req.params) vs
        → ReturnsError f (call_params go h ctx vs) m
        → handle go hs ctx req ch_out ≡ returns (written (plain_response n m) ∷ finished false ∷ [])
    unfolding handle handle_found out_channel chan_at
    handle-ReturnsError hs ctx req ch_out n val f h vs found made id d r =
        let (ef, ev, ee, en) = plain_handler_lem val f h r.outs made in
        let r' = subst (λ g. ReturnsError g (call_params go h ctx vs) m) (sym ef) r in
        let fits = length-Decodes go h.param_receivers req.params vs d in
        let count : (length req.params == h.n_params) ≡ true =
          (nat_beq_iff _ _).1 (fits ∙ sym en) in
        let plain : out_channel go h ≡ ok false = rw ev refl in
        let runs =
          run_method-ReturnsError h ctx req ch_out vs en d r'
          ∙ respond-ReturnsError h req ch_out n _ ev ee id r' in
        rw (found, count, handle) (rw (plain, handle_found, lacks_none go ch_out, runs) refl)
