-- ===== src/Rpc/RoundTrip/Plain.antt =====
-- A remote call of a method that returns an error only.
use Prim.Native.String.{◌++◌ as ◌<>◌}
use mathlib.Core.Path.{subst}
use lotus_dashboard.Common.{
  ℕ, ◌≡◌, ◌∙◌, refl, sym, String, List, [], ◌∷◌, map, Option, some, ok, string_eq,
}
use lotus_dashboard.Common.Int.{ℤ, pos, int_eq, int64_succ}
use lotus_dashboard.Common.Dict.{lookup}
use lotus_dashboard.Rpc.Util.{GoType}
use lotus_dashboard.Rpc.Handler.{Reflect, Handlers, RpcHandler, make_handler, call_params}
use lotus_dashboard.Rpc.Handler.Returns.{Decodes, told}
use lotus_dashboard.Rpc.Handler.Fails.{ReturnsError, plain_response, handle-ReturnsError}
use lotus_dashboard.Rpc.Server.{output, outputs}
use lotus_dashboard.Rpc.Websocket.{Json, WsConn}
use lotus_dashboard.Rpc.Client.{ClientSide, made, error, make_rpc_func, make_request}
use lotus_dashboard.Rpc.Client.Plain.{just_error, plain_field, becomes_plain, finish_call-plain}
use lotus_dashboard.Rpc.RoundTrip.Calls.{
  sent-bytes, decoded_request, server_answer, remote_call, remote_call_lem,
}

module _ (go : Reflect) (cs : ClientSide go.Value) (js : Json go.Value) (hs : Handlers go) (ctx : ℕ)
    (ch_out : go.Value → go.Value) (namespace name : String) (ins : List GoType) where
  -- A method without a value is called like any other. A field with an error as its only result
  -- becomes a function; and if a method with an error as its only result is in the table under its
  -- name, and the bytes of its parameters decode as the arguments, then a call gives back the error
  -- that the method returns, with code 1, or nil.
  pub remote_call-ReturnsError :
      (ctr : ℤ) (span : ℕ) (args : List go.Value) (chan : go.Value) (c : WsConn go.Value)
      (val : go.Value) (f : go.Func) (h : RpcHandler go.Value go.Func) (vs : List go.Value)
      (m : Option String)
      → lookup (namespace <> ("." <> name)) hs ≡ some h
      → make_handler go val f ≡ ok h
      → Decodes go h.param_receivers
          (map
            (λ p. p.bytes)
            (make_request cs (just_error namespace name ins) ctr span args).params)
          vs
      → ReturnsError go f (call_params go h ctx vs) m
      → (make_rpc_func namespace (plain_field name ins) ≡ ok (made (just_error namespace name ins)))
        × (remote_call go cs js hs ctx ch_out (just_error namespace name ins) ctr span args chan c
            ≡ ok (error (told m) ∷ []))
  unfolding server_answer outputs output make_request
  remote_call-ReturnsError ctr span args chan c val f h vs m found made' ds ret =
      let fn = just_error namespace name ins in
      let req = make_request cs fn ctr span args in
      let answer =
        handle-ReturnsError go hs ctx (decoded_request req) (some ch_out) (int64_succ ctr) val f h
          vs found made' refl
          (subst (λ bs. Decodes go h.param_receivers bs vs) (sym (sent-bytes req.params)) ds) ret in
      (
        becomes_plain namespace name ins,
        remote_call_lem go cs js hs ctx ch_out fn ctr span args chan c
              (plain_response go (int64_succ ctr) m) (rw answer refl) refl
            ∙ finish_call-plain cs namespace name ins (int64_succ ctr) (pos 0) chan (told m),
      )
