-- ===== src/Rpc/Handler/Modes.antt =====
-- `handle` with and without output channels: over HTTP, `chOut` is nil.
use lotus_dashboard.Common.{
  ℕ, ◌≡◌, refl, sym, ap, ◌∙◌, inl, inr, List, [], ◌∷◌, false, Option, none, some, ok, ◌>>=◌, arith,
  length, get_elem?, Option-cases, Bool-cases, Result-cases, ◌==◌, nat_eq, string_eq,
}
use lotus_dashboard.Common.Int.{ℤ}
use lotus_dashboard.Common.Dict.{lookup}
use lotus_dashboard.Rpc.Message.{Request, RespError}
use lotus_dashboard.Rpc.Handler.{
  Reflect, Decoded, decoded, undecodable, Called, returned, panicked, RpcHandler, Handlers, written,
  handle, handle_found, out_channel, run_method, run_called, run_decoded, deferred, decode_params,
  do_call, respond, response_error, response_result, write_response, lacks_channels,
}

module _ (go : Reflect) where
  open go use {Value, Func, call, is_chan, interface}

  -- The calls of a method give nothing that holds a channel.
  abbrev pub NoChannels : Func → Type 0
  NoChannels f =
      (args out : List Value) (i : ℕ) (v w : Value)
      → call f args ≡ returned out
      → get_elem? out i ≡ some v
      → interface v ≡ some w
      → is_chan w ≡ false

  response_result-NoChannels :
      (v : Option ℕ) (out : List Value) (w : Value)
      → ((i : ℕ) (x y : Value)
          → get_elem? out i ≡ some x
          → interface x ≡ some y
          → is_chan y ≡ false)
      → response_result go v out ≡ ok (some w)
      → is_chan w ≡ false
  unfolding response_result
  response_result-NoChannels none out w h e = absurd (ground arith)
  response_result-NoChannels (some i) out w h e = elim (Option-cases (get_elem? out i)) [
    | inl m ↦ absurd (ground arith)
    | inr (x, m) ↦ h i x w m (ground arith)
  ]

  write_response-same :
      (o : Option (Value → Value)) (v : Option ℕ) (out : List Value) (r : Option Value) (n : ℤ)
      (e : Option RespError)
      → ((w : Value) → r ≡ some w → is_chan w ≡ false)
      → write_response go o v out (record { jsonrpc = "2.0"; result = r; id = n; error = e })
        ≡ ok (written (record { jsonrpc = "2.0"; result = r; id = n; error = e }) ∷ [])
  unfolding write_response
  write_response-same o v out none n e h = refl
  write_response-same o v out (some w) n e h = rw (h w refl) refl

  respond-same :
      (h : RpcHandler Value Func) (req : Request Value) (o p : Option (Value → Value))
      (out : List Value)
      → ((i : ℕ) (x y : Value)
          → get_elem? out i ≡ some x
          → interface x ≡ some y
          → is_chan y ≡ false)
      → respond go h req o out ≡ respond go h req p out
  unfolding respond
  respond-same h req o p out c = elim (Option-cases req.id) [
    | inl m ↦ rw m refl
    | inr (n, m) ↦ elim (Result-cases (response_error go h.err_out out)) [
      | inr (x, q) ↦ rw (m, q) refl
      | inl (e, q) ↦ elim (Result-cases (response_result go h.val_out out)) [
        | inr (x, t) ↦ rw (m, q, t) refl
        | inl (r, t) ↦
            let plain : (w : Value) → r ≡ some w → is_chan w ≡ false =
              λ w s. response_result-NoChannels h.val_out out w c (t ∙ ap ok s) in
            rw (m, q, t)
              (write_response-same o h.val_out out r n e plain
                ∙ sym (write_response-same p h.val_out out r n e plain))
      ]
    ]
  ]

  run_called-same :
      (h : RpcHandler Value Func) (req : Request Value) (o p : Option (Value → Value))
      (args : List Value) (r : Called Value)
      → NoChannels h.handler_func
      → call h.handler_func args ≡ r
      → run_called go h req o (do_call go req.method h.handler_func args)
        ≡ run_called go h req p (do_call go req.method h.handler_func args)
  unfolding run_called do_call
  run_called-same h req o p args (returned out) c e =
      rw (e, do_call) (respond-same h req o p out (λ i x y. c args out i x y e))
  run_called-same h req o p args (panicked t) c e = rw (e, do_call) refl

  run_decoded-same :
      (h : RpcHandler Value Func) (ctx : ℕ) (req : Request Value) (o p : Option (Value → Value))
      (r : Decoded (List Value))
      → NoChannels h.handler_func
      → run_decoded go h ctx req o r ≡ run_decoded go h ctx req p r
  unfolding run_decoded
  run_decoded-same h ctx req o p (undecodable e) c = refl
  run_decoded-same h ctx req o p (decoded vs) c = run_called-same h req o p _ _ c refl

  handle_found-same :
      (h : RpcHandler Value Func) (ctx : ℕ) (req : Request Value) (f : Value → Value)
      → out_channel go h ≡ ok false
      → NoChannels h.handler_func
      → handle_found go h ctx req none ≡ handle_found go h ctx req (some f)
  unfolding handle_found run_method lacks_channels
  handle_found-same h ctx req f k c =
      rw (k, handle_found)
        (ap
          (λ next.
            deferred false (decode_params go h.n_params h.param_receivers req.params >>= next))
          (λ i r. run_decoded-same h ctx req none (some f) r c i))

  -- A request is handled over HTTP, where there are no output channels, exactly as over a websocket
  -- (the same errors, the same response, the same `done`, the same panics), if the method that it
  -- names, should there be one, neither is declared with a channel as its value nor gives one.
  pub handle-same :
      (hs : Handlers go) (ctx : ℕ) (req : Request Value) (f : Value → Value)
      → ((h : RpcHandler Value Func)
          → lookup req.method hs ≡ some h
          → (out_channel go h ≡ ok false) × NoChannels h.handler_func)
      → handle go hs ctx req none ≡ handle go hs ctx req (some f)
  unfolding handle
  handle-same hs ctx req f c = elim (Option-cases (lookup req.method hs)) [
    | inl missing ↦ rw (missing, handle) refl
    | inr (h, found) ↦ elim (Bool-cases (length req.params == h.n_params)) [
      | inl count ↦
          rw (found, count, handle) (handle_found-same h ctx req f (c h found).0 (c h found).1)
      | inr wrong ↦ rw (found, wrong, handle) refl
    ]
  ]
