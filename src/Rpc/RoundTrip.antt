-- ===== src/Rpc/RoundTrip.antt =====
-- A call from the client's function to the method and back: handleRpcCall and makeRpcFunc of
-- client.go, handle of handler.go, and handleFrame of the client's websocket.go.
pub mod Calls
pub mod Outcomes
pub mod Plain
pub mod Subscription
pub mod Tracing
pub mod Examples
use Prim.Native.String.{◌++◌ as ◌<>◌}
use mathlib.Core.Path.{subst}
use lotus_dashboard.Common.{
  ℕ, ◌≡◌, ◌∙◌, ap, refl, sym, String, List, [], ◌∷◌, map, Bool, true, false, Option, none, some,
  Result, ok, fault, arith, ◌==◌, string_eq, if◌then◌else◌,
}
use lotus_dashboard.Common.Int.{ℤ, int_eq, int64_succ}
use lotus_dashboard.Common.Dict.{lookup}
use lotus_dashboard.Rpc.Message.{Bytes, Param, Request, Response, Frame, ClientResponse, own}
use lotus_dashboard.Rpc.Util.{GoType, is_chan_type}
use lotus_dashboard.Rpc.Handler.{
  Reflect, decoded, Handlers, RpcHandler, make_handler, call_params, finished, written, returns,
  handle,
}
use lotus_dashboard.Rpc.Handler.Returns.{Decodes, Returns, told, response_of, handle-Returns}
use lotus_dashboard.Rpc.Websocket.{
  Json, ClientRequest, WsConn, replied, handle_frame, handle_response,
}
use lotus_dashboard.Rpc.Websocket.Dispatch.{handle_frame-reply}
use lotus_dashboard.Rpc.Client.{
  ClientSide, Slot, value, error, made, make_rpc_func, make_params, arguments, make_request,
  answered, finish_call,
}
use lotus_dashboard.Rpc.Client.Returns.{with_error, field_of, make_rpc_func_lem, finish_call_lem}

abbrev pub bytes_of : {V : Type 0} → (V → Option Bytes) → Option V → Option Bytes
bytes_of marshal none = none
bytes_of marshal (some v) = marshal v

-- The frame that a response arrives as, where `marshal` encodes its result.
abbrev pub arriving : {V : Type 0} → (V → Option Bytes) → Response V → Frame V
arriving marshal r = record {
  jsonrpc = r.jsonrpc;
  id = some r.id;
  meta = none;
  method = "";
  params = [];
  result = bytes_of marshal r.result;
  error = r.error;
}

-- A request arrives with the id, the method and the parameters' bytes that were sent.
pub record Arrives {V : Type 0} (sent got : Request V) : Type 0 where
  pub same_id : got.id ≡ sent.id
  pub same_method : got.method ≡ sent.method
  pub same_bytes : map (λ p. p.bytes) got.params ≡ map (λ p. p.bytes) sent.params

module _ (go : Reflect) (cs : ClientSide go.Value) (js : Json go.Value) (namespace name : String)
    (ins : List GoType) (t : GoType) where
  abbrev pub passed : List go.Value → List go.Value
  passed args = arguments cs (with_error namespace name ins t).has_ctx args

  sent_lem :
      (ctr : ℤ) (span : ℕ) (args : List go.Value) (req : Request go.Value)
      → Arrives (make_request cs (with_error namespace name ins t) ctr span args) req
      → (req.id ≡ some (int64_succ ctr))
        × (req.method ≡ namespace <> ("." <> name))
        × (map (λ p. p.bytes) req.params ≡ map (λ p. p.bytes) (make_params cs (passed args)))
  unfolding make_request
  sent_lem ctr span args req a = (a.same_id, a.same_method, a.same_bytes)

  -- A remote call works. For a field with a value, which is no channel, and an error, and a method
  -- in the table under its name: the field becomes a function; its request, if it arrives with the
  -- id, the method and the parameters' bytes that were sent, if these decode as the arguments at
  -- the method's types, and if the method returns a value that is neither nil nor a channel, and an
  -- error, which may be nil, is answered by one response and `done`; and the connection on which
  -- the request is in flight, without a remote channel, hands on that response, from which the
  -- function returns the method's value, if it decodes again, and the method's error, with code 1.
  pub finish_call-handle :
      (ctr loop : ℤ) (span ctx ready : ℕ) (args : List go.Value) (chan v : go.Value)
      (m : Option String) (ch_out : Option (go.Value → go.Value)) (val : go.Value) (f : go.Func)
      (h : RpcHandler go.Value go.Func) (hs : Handlers go) (req : Request go.Value) (b : Bytes)
      (r : ClientRequest go.Value) (c : WsConn go.Value)
      → Arrives (make_request cs (with_error namespace name ins t) ctr span args) req
      → make_handler go val f ≡ ok h
      → lookup (namespace <> ("." <> name)) hs ≡ some h
      → Decodes go h.param_receivers
          (map (λ p. p.bytes) (make_params cs (passed args)))
          (passed args)
      → Returns go f (call_params go h ctx (passed args)) t v m
      → cs.marshal v ≡ some b
      → cs.unmarshal t b ≡ decoded v
      → lookup (int64_succ ctr) c.inflight ≡ some r
      → r.ready ≡ some ready
      → r.ret_ch ≡ none
      → (resp : Response go.Value) × (d : WsConn go.Value) × (x : ClientResponse) × (make_rpc_func
            namespace
            (field_of name ins t)
          ≡ ok (made (with_error namespace name ins t)))
        × (handle go hs ctx req ch_out ≡ returns (written resp ∷ finished false ∷ []))
        × (handle_frame js (arriving cs.marshal resp) c ≡ ok d)
        × (d.effects ≡ replied ready x ∷ c.effects)
        × (finish_call cs (with_error namespace name ins t) (int64_succ ctr) loop chan (answered x)
            ≡ ok (value v ∷ error (told m) ∷ []))
  finish_call-handle ctr loop span ctx ready args chan v m ch_out val f h hs req b r c a made' found
        ds ret enc dec fly rdy plain =
      let (id, method, bytes) = sent_lem ctr span args req a in
      let resp = response_of go (int64_succ ctr) v m in
      let (d, p, q) =
        handle_frame-reply js (arriving cs.marshal resp) (int64_succ ctr) ready r c refl refl fly
          rdy plain in
      (
        resp,
        d,
        record { jsonrpc = "2.0"; result = some b; id = own (int64_succ ctr); error = told m },
        make_rpc_func_lem namespace name ins t ret.plain,
        handle-Returns go hs ctx req ch_out (int64_succ ctr) val f h (passed args) t v
            (subst (λ name'. lookup name' hs ≡ some h) (sym method) found) made' id
            (subst (λ bs. Decodes go h.param_receivers bs (passed args)) (sym bytes) ds) ret,
        p,
        q
            ∙ ap
                (λ bytes.
                  replied ready (record {
                    jsonrpc = "2.0";
                    result = bytes;
                    id = own (int64_succ ctr);
                    error = told m;
                  })
                  ∷ c.effects)
                enc,
        finish_call_lem cs namespace name ins t (int64_succ ctr) loop chan v b (told m) dec,
      )
