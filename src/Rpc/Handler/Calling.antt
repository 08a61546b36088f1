-- ===== src/Rpc/Handler/Calling.antt =====
-- What `handle` makes of a request does not hang on how reflect takes arguments that do not fit.
use lotus_dashboard.Common.{
  ℕ, zero, suc, ◌≡◌, refl, ◌∙◌, ap, inl, inr, String, List, [], ◌∷◌, Bool, Option, none, some, ok,
  arith, length, Bool-cases, Option-cases, Result-cases, string_eq, ◌==◌, All, nat_eq,
}
use lotus_dashboard.Common.Dict.{lookup}
use lotus_dashboard.Rpc.Message.{Param, Request}
use lotus_dashboard.Rpc.Util.{GoType}
use lotus_dashboard.Rpc.Handler.Tables.{register-Entries}
use lotus_dashboard.Rpc.Handler.Typing.{
  Fits, IsTyped, IsMethodOf, Completes, every_method, decode_params-Fits, arity_of, Decoded-cases,
}
use lotus_dashboard.Rpc.Handler.{
  Reflect, RpcHandler, Handlers, Decoded, decoded, undecodable, Called, register, call_params,
  decode_params, do_call, run_decoded, run_called, run_method, handle_found, handle, out_channel,
  respond, response_error, response_result, write_response, lacks_channels,
}

-- The package reflect with another way to call a function.
abbrev pub calling : (go : Reflect) → (go.Func → List go.Value → Called go.Value) → Reflect
calling go run = record go { call = run }

module _ (go : Reflect) (HasType : go.Value → GoType → Type 0)
    (run : go.Func → List go.Value → Called go.Value)
    (agrees : (f : go.Func) (args : List go.Value)
      → Fits go HasType args (go.func_type f).ins
      → go.call f args ≡ run f args) where
  open go use {Value, Func, func_type, decode}

  decode_params-same :
      (n : ℕ) (ts : List GoType) (ps : List (Param Value))
      → decode_params (calling go run) n ts ps ≡ decode_params go n ts ps
  unfolding decode_params
  decode_params-same zero ts ps = refl
  decode_params-same (suc n) [] ps = refl
  decode_params-same (suc n) (t ∷ ts) [] = refl
  decode_params-same (suc n) (t ∷ ts) (p ∷ ps) = elim (Decoded-cases (decode t p.bytes)) [
    | inr (x, c) ↦ rw (c, decode_params) refl
    | inl (v, c) ↦ rw (c, decode_params) (rw (decode_params-same n ts ps) refl)
  ]

  do_call-same :
      (name : String) (f : Func) (args : List Value)
      → Fits go HasType args (func_type f).ins
      → do_call (calling go run) name f args ≡ do_call go name f args
  unfolding do_call
  do_call-same name f args w = rw (do_call, agrees f args w) refl

  respond-same :
      (h : RpcHandler Value Func) (req : Request Value) (o : Option (Value → Value))
      (out : List Value)
      → respond (calling go run) h req o out ≡ respond go h req o out
  unfolding respond response_error response_result write_response
  respond-same h req o out = refl

  called_the_same :
      (h : RpcHandler Value Func) (req : Request Value) (o : Option (Value → Value))
      (r : Decoded (List Value))
      → run_called (calling go run) h req o r ≡ run_called go h req o r
  unfolding run_called
  called_the_same h req o (undecodable e) = refl
  called_the_same h req o (decoded out) = respond-same h req o out

  run_called-same :
      (h : RpcHandler Value Func) (req : Request Value) (o : Option (Value → Value))
      (args : List Value)
      → Fits go HasType args (func_type h.handler_func).ins
      → run_called
          (calling go run)
          h
          req
          o
          (do_call (calling go run) req.method h.handler_func args)
        ≡ run_called go h req o (do_call go req.method h.handler_func args)
  run_called-same h req o args w =
      rw (do_call-same req.method h.handler_func args w)
        (called_the_same h req o (do_call go req.method h.handler_func args))

  run_decoded-same :
      (h : RpcHandler Value Func) (ctx : ℕ) (req : Request Value) (o : Option (Value → Value))
      (r : Decoded (List Value))
      → Completes go HasType h
      → ((vs : List Value) → r ≡ decoded vs → Fits go HasType vs h.param_receivers)
      → run_decoded (calling go run) h ctx req o r ≡ run_decoded go h ctx req o r
  unfolding run_decoded
  run_decoded-same h ctx req o (undecodable e) c f = refl
  run_decoded-same h ctx req o (decoded vs) c f =
      run_called-same h req o (call_params go h ctx vs) (c.1 ctx vs (f vs refl))

  run_method-same :
      (h : RpcHandler Value Func) (ctx : ℕ) (req : Request Value) (o : Option (Value → Value))
      → length h.param_receivers ≡ h.n_params
      → Completes go HasType h
      → run_method (calling go run) h ctx req o ≡ run_method go h ctx req o
  unfolding run_method
  run_method-same h ctx req o l c =
      rw (decode_params-same h.n_params h.param_receivers req.params)
        (elim (Result-cases (decode_params go h.n_params h.param_receivers req.params)) [
          | inr (e, p) ↦ rw p refl
          | inl (r, p) ↦ rw p (
              run_decoded-same h ctx req o r c (λ vs d.
                decode_params-Fits go HasType h.n_params h.param_receivers req.params vs c.0 l
                  (p ∙ ap ok d)))
        ])

  lacks_same :
      (o : Option (Value → Value)) (keep : Bool)
      → lacks_channels (calling go run) o keep ≡ lacks_channels go o keep
  unfolding lacks_channels
  lacks_same none keep = refl
  lacks_same (some f) keep = refl

  handle_found-same :
      (h : RpcHandler Value Func) (ctx : ℕ) (req : Request Value) (o : Option (Value → Value))
      → run_method (calling go run) h ctx req o ≡ run_method go h ctx req o
      → handle_found (calling go run) h ctx req o ≡ handle_found go h ctx req o
  unfolding handle_found
  handle_found-same h ctx req o e = elim (Result-cases (out_channel go h)) [
    | inr (x, p) ↦ rw (p, handle_found) refl
    | inl (keep, p) ↦ elim (Bool-cases (lacks_channels go o keep)) [
      | inl l ↦ rw (p, handle_found) (rw (lacks_same o keep, l) refl)
      | inr l ↦ rw (p, handle_found) (rw (lacks_same o keep, l, e) refl)
    ]
  ]

  -- Whatever a request holds, `handle` makes no call through reflect but with arguments of the
  -- types that the function takes: at a table that `register` built of methods of a value, it does
  -- the same with any other way to call functions that agrees on such arguments, if what decodes
  -- into the type of a method's parameter is passed as a value of that type, as it is unless that
  -- is an interface type, and a context is of the context's type.
  pub handle-Fits :
      (namespace : String) (val : Value) (ms : List (String × Func)) (hs : Handlers go) (ctx : ℕ)
      (req : Request Value) (ch_out : Option (Value → Value))
      → IsTyped go HasType
      → All (IsMethodOf go HasType val) ms
      → register go namespace val ms [] ≡ ok hs
      → handle (calling go run) hs ctx req ch_out ≡ handle go hs ctx req ch_out
  unfolding handle
  handle-Fits namespace val ms hs ctx req o y a built = elim (Option-cases (lookup req.method hs)) [
    | inl missing ↦ rw (missing, handle) refl
    | inr (h, found) ↦ elim (Bool-cases (length req.params == h.n_params)) [
      | inr wrong ↦ rw (found, wrong, handle) refl
      | inl count ↦
          rw (found, count, handle)
            (handle_found-same h ctx req o (
              run_method-same h ctx req o
                (arity_of go HasType namespace val ms hs h req.method built found)
                (register-Entries go namespace val ms [] hs (every_method go HasType val ms y a)
                  (λ k g e. absurd (ground arith)) built req.method h found)))
    ]
  ]
