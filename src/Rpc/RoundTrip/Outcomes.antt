-- ===== src/Rpc/RoundTrip/Outcomes.antt =====
-- What the caller of a remote function gets: the method's value and error, or the server's error.
use Prim.Native.String.{◌++◌ as ◌<>◌}
use mathlib.Core.Path.{subst}
use lotus_dashboard.Common.{
  ℕ, ◌≡◌, ◌⊎◌, inl, inr, length, nat_eq, if◌then◌else◌, ◌∙◌, ap, refl, sym, String, List, [], ◌∷◌,
  map, Bool, false, Option, none, some, ok, ◌==◌, string_eq,
}
use lotus_dashboard.Common.Int.{ℤ, pos, int_eq, int64_succ}
use lotus_dashboard.Common.Dict.{lookup}
use lotus_dashboard.Rpc.Message.{
  Bytes, rpc_method_not_found, rpc_invalid_params, Request, Response, own,
}
use lotus_dashboard.Rpc.Util.{GoType}
use lotus_dashboard.Rpc.Handler.{
  Reflect, Handlers, RpcHandler, decoded, rejected, finished, returns, make_handler, call_params,
  handle,
}
use lotus_dashboard.Rpc.Handler.Returns.{Decodes, Returns, told, response_of, handle-Returns}
use lotus_dashboard.Rpc.Server.{output, outputs, rpc_error}
use lotus_dashboard.Rpc.Websocket.{Json, WsConn}
use lotus_dashboard.Rpc.Client.{
  ClientSide, RpcFunc, value, error, make_request, answered, finish_call,
}
use lotus_dashboard.Rpc.Client.Returns.{with_error, finish_call_lem, finish_call-zero_value}
use lotus_dashboard.Rpc.Server.Outcomes.{is_some}
use lotus_dashboard.Rpc.RoundTrip.Calls.{
  sent-bytes, decoded_request, server_answer, remote_call, remote_call_lem,
}

module _ (go : Reflect) (cs : ClientSide go.Value) (js : Json go.Value) (hs : Handlers go) (ctx : ℕ)
    (ch_out : go.Value → go.Value) (namespace name : String) (ins : List GoType) (t : GoType) where
  open go use {Value}

  abbrev fn : RpcFunc
  fn = with_error namespace name ins t

  -- The request as the server gets it.
  abbrev pub asked : ℤ → ℕ → List Value → Request Value
  asked ctr span args = decoded_request (make_request cs fn ctr span args)

  asked-id :
      (ctr : ℤ) (span : ℕ) (args : List Value) → (asked ctr span args).id ≡ some (int64_succ ctr)
  unfolding make_request
  asked-id ctr span args = refl

  asked-method :
      (ctr : ℤ) (span : ℕ) (args : List Value)
      → (asked ctr span args).method ≡ namespace <> ("." <> name)
  unfolding make_request
  asked-method ctr span args = refl

  -- An error that the server reports is the error of the caller, who gets the zero value with it.
  remote_call-rejected :
      (ctr : ℤ) (span : ℕ) (args : List Value) (chan : Value) (c : WsConn Value) (code : ℤ)
      (msg : String) (keep : Bool)
      → handle go hs ctx (asked ctr span args) (some ch_out)
        ≡ returns (rejected code msg ∷ finished keep ∷ [])
      → remote_call go cs js hs ctx ch_out fn ctr span args chan c
        ≡ ok (value (cs.zero_value t) ∷ error (some (record { code = code; message = msg })) ∷ [])
  unfolding server_answer outputs output rpc_error make_request
  remote_call-rejected ctr span args chan c code msg keep h =
      let r : Response Value = record {
        jsonrpc = "2.0";
        result = none;
        id = int64_succ ctr;
        error = some (record { code = code; message = msg });
      } in
      remote_call_lem go cs js hs ctx ch_out fn ctr span args chan c r (rw h refl) refl
      ∙ finish_call-zero_value cs namespace name ins t (int64_succ ctr) (pos 0) chan r.error

  -- A call of a method that is not in the server's table, or whose number of parameters is not
  -- that of the method in the table, is answered: the caller gets the zero value, and an error
  -- whose code says which of the two it was.
  pub remote_call_rejects :
      (ctr : ℤ) (span : ℕ) (args : List Value) (chan : Value) (c : WsConn Value)
      → (lookup (namespace <> ("." <> name)) hs ≡ none)
        ⊎ ((h : RpcHandler Value go.Func) × (lookup (namespace <> ("." <> name)) hs ≡ some h)
            × ((length (asked ctr span args).params == h.n_params) ≡ false))
      → (code : ℤ) × (text : String) × (code ≡ (
          if is_some (lookup (namespace <> ("." <> name)) hs)
          then rpc_invalid_params
          else rpc_method_not_found))
        × (remote_call go cs js hs ctx ch_out fn ctr span args chan c
            ≡ ok (
                value (cs.zero_value t)
                ∷ error (some (record { code = code; message = text }))
                ∷ []))
  unfolding handle make_request
  remote_call_rejects ctr span args chan c (inl missing) = (
    rpc_method_not_found,
    "method '" <> ((namespace <> ("." <> name)) <> "' not found"),
    rw missing refl,
    remote_call-rejected ctr span args chan c _ _ false (rw (missing, handle) refl),
  )
  remote_call_rejects ctr span args chan c (inr (h, found, wrong)) = (
    rpc_invalid_params,
    "wrong param count",
    rw found refl,
    remote_call-rejected ctr span args chan c _ _ false (rw (found, wrong, handle) refl),
  )

  -- A call of a method in the server's table works: if the parameters' bytes decode as the
  -- arguments and the method returns a value that is neither nil nor a channel, and an error, which
  -- may be nil, then the caller gets that value, if it decodes again, and that error.
  pub remote_call-Returns :
      (ctr : ℤ) (span : ℕ) (args : List Value) (chan : Value) (c : WsConn Value) (val : Value)
      (f : go.Func) (h : RpcHandler Value go.Func) (vs : List Value) (v : Value) (m : Option String)
      (b : Bytes)
      → lookup (namespace <> ("." <> name)) hs ≡ some h
      → make_handler go val f ≡ ok h
      → Decodes go h.param_receivers
          (map (λ p. p.bytes) (make_request cs fn ctr span args).params)
          vs
      → Returns go f (call_params go h ctx vs) t v m
      → cs.marshal v ≡ some b
      → cs.unmarshal t b ≡ decoded v
      → remote_call go cs js hs ctx ch_out fn ctr span args chan c
        ≡ ok (value v ∷ error (told m) ∷ [])
  unfolding server_answer outputs output
  remote_call-Returns ctr span args chan c val f h vs v m b found made ds ret enc dec =
      let req = asked ctr span args in
      let id : req.id ≡ some (int64_succ ctr) = asked-id ctr span args in
      remote_call_lem go cs js hs ctx ch_out fn ctr span args chan c
        (response_of go (int64_succ ctr) v m)
        (rw
          (handle-Returns go hs ctx req (some ch_out) (int64_succ ctr) val f h vs t v
            (subst (λ k. lookup k hs ≡ some h) (sym (asked-method ctr span args)) found) made id
            (subst (λ bs. Decodes go h.param_receivers bs vs)
              (sym (sent-bytes (make_request cs fn ctr span args).params)) ds)
            ret)
          refl)
        refl
      ∙ ap
          (λ bs. finish_call cs fn (int64_succ ctr) (pos 0) chan (
            answered
              (record { jsonrpc = "2.0"; result = bs; id = own (int64_succ ctr); error = told m })))
          enc
      ∙ finish_call_lem cs namespace name ins t (int64_succ ctr) (pos 0) chan v b (told m) dec
