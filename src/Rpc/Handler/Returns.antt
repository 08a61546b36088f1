-- ===== src/Rpc/Handler/Returns.antt =====
-- What `handle` writes for a method that returns a value and an error, which may be nil.
use mathlib.Core.Path.{subst}
use mathlib.Core.Option
use lotus_dashboard.Common.{
  ℕ, suc, ◌≡◌, refl, sym, ◌∙◌, ap, String, List, [], ◌∷◌, map, true, false, Option, none, some, ok,
  >>=-eq-ok, arith, nil_dereference, Result, fault, length, ◌==◌, nat_beq_iff, nat_eq, string_eq,
}
use lotus_dashboard.Common.Int.{ℤ, pos}
use lotus_dashboard.Common.Dict.{lookup}
use lotus_dashboard.Rpc.Message.{Bytes, Param, Request, Response, RespError}
use lotus_dashboard.Rpc.Util.{
  FuncType, GoType, error_type, is_chan_type, process_func_out, process_outs,
}
use lotus_dashboard.Rpc.Handler.{
  Reflect, decoded, returned, RpcHandler, Action, deferred, Handlers, finished, written,
  make_handler, returns, handle, handle_found, out_channel, chan_at, run_method, run_called,
  run_decoded, decode_params, do_call, respond, response_error, response_result, write_response,
  call_params, lacks_channels,
}

-- The error of a response, from what the method's error says.
abbrev pub told : Option String → Option RespError
told m = Option.map (λ s. record { code = pos 1; message = s }) m

module _ (go : Reflect) where
  open go use {Value, Func, func_type, call, decode, value_of, interface, error_text, is_chan}

  -- The texts decode as the values, each at its type.
  abbrev pub Decodes : List GoType → List Bytes → List Value → Type 0
  Decodes [] [] [] = Unit
  Decodes (t ∷ ts) (b ∷ bs) (v ∷ vs) =
      ((w : Value) × (decode t b ≡ decoded w) × (value_of w ≡ v)) × Decodes ts bs vs
  Decodes _ _ _ = ⊥

  -- What a method that `register` has put into the table does at an argument list.
  pub record Returns (f : Func) (args : List Value) (t : GoType) (v : Value) (m : Option String)
      : Type 0 where
    pub outs : (func_type f).outs ≡ t ∷ error_type ∷ []
    pub plain : is_chan_type t ≡ false
    pub err : Value
    pub called : call f args ≡ returned (v ∷ err ∷ [])
    pub says : error_text err ≡ m
    pub not_nil : interface v ≡ some v
    pub no_channel : is_chan v ≡ false

  pub decode_params-Decodes :
      (ts : List GoType) (ps : List (Param Value)) (vs : List Value)
      → Decodes ts (map (λ p. p.bytes) ps) vs
      → decode_params go (length ts) ts ps ≡ ok (decoded vs)
  unfolding decode_params
  decode_params-Decodes [] [] [] d = refl
  decode_params-Decodes [] [] (v ∷ vs) d = elim d [ ]
  decode_params-Decodes [] (p ∷ ps) vs d = elim d [ ]
  decode_params-Decodes (t ∷ ts) [] vs d = elim d [ ]
  decode_params-Decodes (t ∷ ts) (p ∷ ps) [] d = elim d [ ]
  decode_params-Decodes (t ∷ ts) (p ∷ ps) (v ∷ vs) d =
      rw (d.0.1, decode_params-Decodes ts ps vs d.1, d.0.2) refl

  pub length-Decodes :
      (ts : List GoType) (ps : List (Param Value)) (vs : List Value)
      → Decodes ts (map (λ p. p.bytes) ps) vs
      → length ps ≡ length ts
  length-Decodes [] [] vs d = refl
  length-Decodes [] (p ∷ ps) vs d = elim d [ ]
  length-Decodes (t ∷ ts) [] vs d = elim d [ ]
  length-Decodes (t ∷ ts) (p ∷ ps) [] d = elim d [ ]
  length-Decodes (t ∷ ts) (p ∷ ps) (v ∷ vs) d = ap suc (length-Decodes ts ps vs d.1)

  two_outs :
      (ft : FuncType) (t : GoType)
      → ft.outs ≡ t ∷ error_type ∷ []
      → process_func_out ft ≡ ok (record { val_out = some 0; err_out = some 1; n = 2 })
  unfolding process_func_out process_outs
  two_outs ft t o = rw o refl

  -- The entry of a function with a value and an error.
  pub make_handler_lem :
      (val : Value) (f : Func) (h : RpcHandler Value Func) (t : GoType)
      → (func_type f).outs ≡ t ∷ error_type ∷ []
      → make_handler go val f ≡ ok h
      → (h.handler_func ≡ f)
        × (h.val_out ≡ some 0)
        × (h.err_out ≡ some 1)
        × (h.n_params ≡ length h.param_receivers)
  unfolding make_handler
  make_handler_lem val f h t o e =
      let (out, p, q) = >>=-eq-ok (process_func_out (func_type f)) _ e in
      ground (arith, two_outs (func_type f) t o)

  -- The response with a value and the text of an error.
  abbrev pub response_of : ℤ → Value → Option String → Response Value
  response_of n v m = record { jsonrpc = "2.0"; result = some v; id = n; error = told m }

  respond_without_id :
      (h : RpcHandler Value Func) (req : Request Value) (ch_out : Option (Value → Value))
      (out : List Value)
      → req.id ≡ none
      → respond go h req ch_out out ≡ fault nil_dereference
  unfolding respond
  respond_without_id h req ch_out out id = rw id refl

  pub lacks_none : (ch_out : Option (Value → Value)) → lacks_channels go ch_out false ≡ false
  unfolding lacks_channels
  lacks_none none = refl
  lacks_none (some f) = refl

  module _ {m : Option String} where
    respond-Returns :
        (h : RpcHandler Value Func) (req : Request Value) (ch_out : Option (Value → Value)) (n : ℤ)
        (args : List Value) (t : GoType) (v : Value)
        → h.val_out ≡ some 0
        → h.err_out ≡ some 1
        → req.id ≡ some n
        → (r : Returns h.handler_func args t v m)
        → respond go h req ch_out (v ∷ r.err ∷ []) ≡ ok (written (response_of n v m) ∷ [])
    unfolding respond response_error response_result write_response
    respond-Returns h req ch_out n args t v ev ee id r =
        rw (id, ev, ee, r.says, r.not_nil, r.no_channel) refl

    run_decoded-Returns :
        (h : RpcHandler Value Func) (ctx : ℕ) (req : Request Value)
        (ch_out : Option (Value → Value)) (vs : List Value) (t : GoType) (v : Value)
        → (r : Returns h.handler_func (call_params go h ctx vs) t v m)
        → run_decoded go h ctx req ch_out (decoded vs) ≡ respond go h req ch_out (v ∷ r.err ∷ [])
    unfolding run_decoded run_called do_call
    run_decoded-Returns h ctx req ch_out vs t v r = rw (r.called, run_called) refl

    run_method-Returns :
        (h : RpcHandler Value Func) (ctx : ℕ) (req : Request Value)
        (ch_out : Option (Value → Value)) (vs : List Value) (t : GoType) (v : Value)
        → h.n_params ≡ length h.param_receivers
        → Decodes h.param_receivers (map (λ p. p.bytes) req.params) vs
        → (r : Returns h.handler_func (call_params go h ctx vs) t v m)
        → run_method go h ctx req ch_out ≡ respond go h req ch_out (v ∷ r.err ∷ [])
    unfolding run_method
    run_method-Returns h ctx req ch_out vs t v en d r =
        rw (en, decode_params-Decodes h.param_receivers req.params vs d)
          (run_decoded-Returns h ctx req ch_out vs t v r)

    out_channel-Returns :
        (h : RpcHandler Value Func) (args : List Value) (t : GoType) (v : Value)
        → h.val_out ≡ some 0
        → Returns h.handler_func args t v m
        → out_channel go h ≡ ok false
    unfolding out_channel chan_at
    out_channel-Returns h args t v ev r = rw (ev, r.outs, r.plain) refl

    handle_found-Returns :
        (h : RpcHandler Value Func) (ctx : ℕ) (req : Request Value)
        (ch_out : Option (Value → Value)) (args : List Value) (t : GoType) (v : Value)
        (x : Result (List (Action Value)))
        → h.val_out ≡ some 0
        → Returns h.handler_func args t v m
        → run_method go h ctx req ch_out ≡ x
        → handle_found go h ctx req ch_out ≡ deferred false x
    unfolding handle_found
    handle_found-Returns h ctx req ch_out args t v x ev r e =
        rw (out_channel-Returns h args t v ev r, handle_found, lacks_none ch_out, e) refl

    -- `handle` up to the response.
    handle_responds :
        (hs : Handlers go) (ctx : ℕ) (req : Request Value) (ch_out : Option (Value → Value))
        (val : Value) (f : Func) (h : RpcHandler Value Func) (vs : List Value) (t : GoType)
        (v : Value) (x : Result (List (Action Value)))
        → lookup req.method hs ≡ some h
        → make_handler go val f ≡ ok h
        → Decodes h.param_receivers (map (λ p. p.bytes) req.params) vs
        → Returns f (call_params go h ctx vs) t v m
        → (h.val_out ≡ some 0
            → h.err_out ≡ some 1
            → (r : Returns h.handler_func (call_params go h ctx vs) t v m)
            → respond go h req ch_out (v ∷ r.err ∷ []) ≡ x)
        → handle go hs ctx req ch_out ≡ deferred false x
    unfolding handle
    handle_responds hs ctx req ch_out val f h vs t v x found made d r e =
        let (ef, ev, ee, en) = make_handler_lem val f h t r.outs made in
        let r' = subst (λ g. Returns g (call_params go h ctx vs) t v m) (sym ef) r in
        let fits = length-Decodes h.param_receivers req.params vs d in
        let count : (length req.params == h.n_params) ≡ true =
          (nat_beq_iff _ _).1 (fits ∙ sym en) in
        rw (found, count, handle)
          (handle_found-Returns h ctx req ch_out _ t v x ev r'
            (run_method-Returns h ctx req ch_out vs t v en d r' ∙ e ev ee r'))

    pub handle-Returns :
        (hs : Handlers go) (ctx : ℕ) (req : Request Value) (ch_out : Option (Value → Value)) (n : ℤ)
        (val : Value) (f : Func) (h : RpcHandler Value Func) (vs : List Value) (t : GoType)
        (v : Value)
        → lookup req.method hs ≡ some h
        → make_handler go val f ≡ ok h
        → req.id ≡ some n
        → Decodes h.param_receivers (map (λ p. p.bytes) req.params) vs
        → Returns f (call_params go h ctx vs) t v m
        → handle go hs ctx req ch_out ≡ returns (written (response_of n v m) ∷ finished false ∷ [])
    handle-Returns hs ctx req ch_out n val f h vs t v found made id d r =
        handle_responds hs ctx req ch_out val f h vs t v (ok (written (response_of n v m) ∷ []))
          found made d r (λ ev ee r'. respond-Returns h req ch_out n _ t v ev ee id r')

    pub handle_without_id :
        (hs : Handlers go) (ctx : ℕ) (req : Request Value) (ch_out : Option (Value → Value))
        (val : Value) (f : Func) (h : RpcHandler Value Func) (vs : List Value) (t : GoType)
        (v : Value)
        → lookup req.method hs ≡ some h
        → make_handler go val f ≡ ok h
        → req.id ≡ none
        → Decodes h.param_receivers (map (λ p. p.bytes) req.params) vs
        → Returns f (call_params go h ctx vs) t v m
        → handle go hs ctx req ch_out ≡ deferred false (fault nil_dereference)
    handle_without_id hs ctx req ch_out val f h vs t v found made id d r =
        handle_responds hs ctx req ch_out val f h vs t v (fault nil_dereference) found made d r
          (λ ev ee r'. respond_without_id h req ch_out _ id)
