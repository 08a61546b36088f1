-- ===== src/Rpc/Handler/Answers.antt =====
-- How `handle` answers: what each branch does, and that a request is answered once.
use mathlib.Core.Path.{subst}
use lotus_dashboard.Common.{
  ℕ, zero, suc, ◌≡◌, refl, sym, inl, inr, String, List, [], ◌∷◌, ◌++◌, Bool, true, false, Option,
  none, some, Result, ok, fault, ◌>>=◌, arith, length, get_elem?_of_lt, Option-cases, Bool-cases,
  Result-cases, is_ok, string_eq, ◌==◌, nat_eq, nat_beq_iff,
}
use lotus_dashboard.Common.Int.{ℤ}
use lotus_dashboard.Common.Dict.{lookup}
use lotus_dashboard.Rpc.Message.{Request, RespError, Param}
use lotus_dashboard.Rpc.Util.{GoType}
use lotus_dashboard.Rpc.Util.Outputs.{InRange}
use lotus_dashboard.Rpc.Handler.{
  Reflect, Decoded, decoded, undecodable, returned, RpcHandler, Handlers, Action, rejected,
  finished, registered, written, Outcome, handle, handle_found, out_channel, chan_at, run_method,
  run_called, run_decoded, result_at, deferred, decode_params, do_call, respond, response_error,
  response_result, write_response, lacks_channels,
}
use lotus_dashboard.Rpc.Handler.Tables.{IsWellFormed, IsTable}

-- One answer with the id, and nothing else but the registration of an output channel before it.
abbrev pub IsAnswer : {V : Type 0} → ℤ → List (Action V) → Type 0
IsAnswer n (rejected code m ∷ []) = Unit
IsAnswer n (written r ∷ []) = r.id ≡ n
IsAnswer n (registered c ∷ written r ∷ []) = r.id ≡ n
IsAnswer n _ = ⊥

abbrev pub Answers : {V : Type 0} → ℤ → Result (List (Action V)) → Type 0
Answers n (ok as') = IsAnswer n as'
Answers n (fault e) = ⊥

-- The answer, then `done`.
abbrev pub IsServed : {V : Type 0} → ℤ → Outcome V → Type 0
IsServed {V} n o =
    (as' : List (Action V)) × (keep : Bool) × (o.actions ≡ as' ++ finished keep ∷ [])
    × IsAnswer n as'
    × (o.failed ≡ none)

module _ (go : Reflect) where
  open go use {Value, Func, func_type, call, is_chan, decode}

  -- reflect: a call returns as many results as the function type has outputs.
  abbrev pub ReturnsOutputs : Type 0
  ReturnsOutputs =
      (f : Func) (args out : List Value)
      → call f args ≡ returned out
      → length out ≡ length (func_type f).outs

  decode_params-is_ok :
      (n : ℕ) (ts : List GoType) (ps : List (Param Value))
      → length ts ≡ n
      → length ps ≡ n
      → is_ok (decode_params go n ts ps) ≡ true
  unfolding decode_params
  decode_params-is_ok zero ts ps a b = refl
  decode_params-is_ok (suc n) [] ps a b = absurd (omega arith)
  decode_params-is_ok (suc n) (t ∷ ts) [] a b = absurd (omega arith)
  decode_params-is_ok (suc n) (t ∷ ts) (p ∷ ps) a b =
      ground (arith, decode_params-is_ok n ts ps (omega arith) (omega arith))

  response_error-is_ok :
      (e : Option ℕ) (out : List Value)
      → InRange (length out) e
      → is_ok (response_error go e out) ≡ true
  unfolding response_error
  response_error-is_ok none out r = refl
  response_error-is_ok (some i) out r = let (v, p) = get_elem?_of_lt out i r in rw p

  -- From the result on, with a fitting value index.
  result-Answers :
      (f : Value → Value) (v : Option ℕ) (out : List Value) (n : ℤ) (e : Option RespError)
      → InRange (length out) v
      → Answers n (
          response_result go v out >>= λ r.
          write_response go
            (some f)
            v
            out
            (record { jsonrpc = "2.0"; result = r; id = n; error = e }))
  unfolding response_result write_response result_at
  result-Answers f none out n e r = refl
  result-Answers f (some i) out n e r = ground (arith, get_elem?_of_lt out i r)

  respond-Answers :
      (h : RpcHandler Value Func) (req : Request Value) (f : Value → Value) (out : List Value)
      (n : ℤ)
      → req.id ≡ some n
      → InRange (length out) h.val_out
      → InRange (length out) h.err_out
      → Answers n (respond go h req (some f) out)
  unfolding respond
  respond-Answers h req f out n id rv re = elim (Result-cases (response_error go h.err_out out)) [
    | inl (e, p) ↦ rw (id, p) (result-Answers f h.val_out out n e rv)
    | inr (e, p) ↦ absurd (ground (arith, response_error-is_ok h.err_out out re))
  ]

  module _ (returns_outputs : ReturnsOutputs) where
    do_call-length :
        (m : String) (f : Func) (args out : List Value)
        → do_call go m f args ≡ decoded out
        → length out ≡ length (func_type f).outs
    unfolding do_call
    do_call-length m f args out e = ground (arith, returns_outputs f args out)

    run_called-Answers :
        (h : RpcHandler Value Func) (req : Request Value) (f : Value → Value) (n : ℤ)
        (r : Decoded (List Value))
        → IsWellFormed go h
        → req.id ≡ some n
        → ((out : List Value)
            → r ≡ decoded out
            → length out ≡ length (func_type h.handler_func).outs)
        → Answers n (run_called go h req (some f) r)
    unfolding run_called
    run_called-Answers h req f n (undecodable e) w id len = tt
    run_called-Answers h req f n (decoded out) w id len =
        respond-Answers h req f out n id
          (subst (λ k. InRange k h.val_out) (sym (len out refl)) w.value_in_range)
          (subst (λ k. InRange k h.err_out) (sym (len out refl)) w.error_in_range)

    run_decoded-Answers :
        (h : RpcHandler Value Func) (ctx : ℕ) (req : Request Value) (f : Value → Value) (n : ℤ)
        (r : Decoded (List Value))
        → IsWellFormed go h
        → req.id ≡ some n
        → Answers n (run_decoded go h ctx req (some f) r)
    unfolding run_decoded
    run_decoded-Answers h ctx req f n (undecodable e) w id = tt
    run_decoded-Answers h ctx req f n (decoded vs) w id =
        run_called-Answers h req f n _ w id (do_call-length req.method h.handler_func _)

    run_method-Answers :
        (h : RpcHandler Value Func) (ctx : ℕ) (req : Request Value) (f : Value → Value) (n : ℤ)
        → IsWellFormed go h
        → req.id ≡ some n
        → length req.params ≡ h.n_params
        → Answers n (run_method go h ctx req (some f))
    unfolding run_method
    run_method-Answers h ctx req f n w id count =
        elim (Result-cases (decode_params go h.n_params h.param_receivers req.params)) [
          | inl (r, p) ↦ rw (p, run_method) (run_decoded-Answers h ctx req f n r w id)
          | inr (e, p) ↦ absurd (
              ground
                (arith, decode_params-is_ok h.n_params h.param_receivers req.params w.arity count))
        ]

    deferred-IsServed :
        (n : ℤ) (keep : Bool) (r : Result (List (Action Value)))
        → Answers n r
        → IsServed n (deferred keep r)
    deferred-IsServed n keep (ok as') a = (as', keep, refl, a, refl)
    deferred-IsServed n keep (fault e) a = elim a [ ]

    chan_at-is_ok :
        (v : Option ℕ) (outs : List GoType)
        → InRange (length outs) v
        → is_ok (chan_at go v outs) ≡ true
    unfolding chan_at
    chan_at-is_ok none outs r = refl
    chan_at-is_ok (some i) outs r = ground (arith, get_elem?_of_lt outs i r)

    pub out_channel-is_ok :
        (h : RpcHandler Value Func) → IsWellFormed go h → is_ok (out_channel go h) ≡ true
    unfolding out_channel
    out_channel-is_ok h w = chan_at-is_ok h.val_out _ w.value_in_range

    handle_found-IsServed :
        (h : RpcHandler Value Func) (ctx : ℕ) (req : Request Value) (f : Value → Value) (n : ℤ)
        → IsWellFormed go h
        → req.id ≡ some n
        → length req.params ≡ h.n_params
        → IsServed n (handle_found go h ctx req (some f))
    unfolding handle_found out_channel lacks_channels
    handle_found-IsServed h ctx req f n w id count = elim (Result-cases (out_channel go h)) [
      | inl (keep, p) ↦
          rw (p, handle_found)
            (deferred-IsServed n keep _ (run_method-Answers h ctx req f n w id count))
      | inr (e, p) ↦ absurd (ground (arith, chan_at-is_ok h.val_out _ w.value_in_range))
    ]

    -- If calls through reflect return as many results as their functions have outputs: over a
    -- websocket, at a table whose entries are well-formed, a request with an id is served once
    -- whatever it asks for and however the method ends: the actions are one error or one call of
    -- `Encode` for a response with that id, behind the registration of an output channel at most,
    -- then one `done`.
    pub handle-IsServed :
        (hs : Handlers go) (ctx : ℕ) (req : Request Value) (f : Value → Value) (n : ℤ)
        → IsTable go hs
        → req.id ≡ some n
        → IsServed n (handle go hs ctx req (some f))
    unfolding handle
    handle-IsServed hs ctx req f n t id = elim (Option-cases (lookup req.method hs)) [
      | inl missing ↦ rw (missing, handle) (rejected _ _ ∷ [], false, refl, tt, refl)
      | inr (h, found) ↦ elim (Bool-cases (length req.params == h.n_params)) [
        | inl count ↦
            rw (found, count, handle)
              (handle_found-IsServed h ctx req f n (t req.method h found) id
                ((nat_beq_iff _ _).0 count))
        | inr wrong ↦ rw (found, wrong, handle) (rejected _ _ ∷ [], false, refl, tt, refl)
      ]
    ]
