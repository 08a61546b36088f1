-- ===== src/Rpc/RoundTrip/Subscription.antt =====
-- A call that is answered by a channel: `handle` and `handleChanOut` of the server, and the
-- connection and the function of the client.
use Prim.Native.String.{◌++◌ as ◌<>◌}
use mathlib.Core.Path.{subst}
use lotus_dashboard.Common.{
  ℕ, ◌≡◌, refl, sym, String, List, [], ◌∷◌, map, true, none, some, ok, string_eq, nat_eq, ◌∙◌,
}
use lotus_dashboard.Common.Int.{ℤ, int_eq, int64_succ}
use lotus_dashboard.Common.Dict.{lookup, lookup-insert_self}
use lotus_dashboard.Rpc.Util.{GoType}
use lotus_dashboard.Rpc.Message.{Bytes, Param, Response, Frame, ClientResponse, own}
use lotus_dashboard.Rpc.Handler.{
  Reflect, Handlers, RpcHandler, make_handler, call_params, registered, written, finished, returns,
  handle,
}
use lotus_dashboard.Rpc.Handler.Returns.{Decodes}
use lotus_dashboard.Rpc.Handler.Channels.{ReturnsChannel, channel_response, handle-ReturnsChannel}
use lotus_dashboard.Rpc.Websocket.{
  Json, Sink, ClientRequest, WsConn, sank, replied, started, watch_context, emit, handle_frame,
  handle_chan_out, handle_chan_message,
}
use lotus_dashboard.Rpc.Websocket.Subscribed.{
  subscribed, handle_frame-subscribed, handle_chan_message-subscribed,
}
use lotus_dashboard.Rpc.Client.{
  ClientSide, made, value, error, make_rpc_func, make_request, answered, finish_call,
  first_is_context,
}
use lotus_dashboard.Rpc.Client.Send.{sink_of}
use lotus_dashboard.Rpc.Client.Channels.{
  with_channel, channel_field, becomes_channel, finish_call-channel,
}
use lotus_dashboard.Rpc.RoundTrip.{arriving}
use lotus_dashboard.Rpc.RoundTrip.Calls.{sent-bytes, decoded_request}

module _ (go : Reflect) (cs : ClientSide go.Value) (js : Json go.Value) (namespace name : String)
    (ins : List GoType) (t : GoType) where
  -- A subscription works up to the first message. For a field with a context, a channel and an
  -- error, and a method in the server's table that returns a channel and no error, where the
  -- parameters decode: the field becomes a function; its request is answered by the registration of
  -- the channel, a response with the id that `handleChanOut` gives it, and a `done` that keeps the
  -- context; the client's connection, on which the request is in flight with the receiver that the
  -- call has made, keeps the receiver under that id, if the id can be encoded and read again, and
  -- hands the response on; the function returns its own channel and no error; and a message whose
  -- first parameter can be read as the id goes to the receiver.
  pub subscription-handle :
      (ctr loop : ℤ) (span ctx ready : ℕ) (args : List go.Value) (chan v : go.Value)
      (val : go.Value) (f : go.Func) (h : RpcHandler go.Value go.Func) (hs : Handlers go)
      (vs : List go.Value) (b : Bytes) (r : ClientRequest go.Value) (around receiver : ℕ)
      (c s : WsConn go.Value) (m : Frame go.Value) (p q : Param go.Value)
      → first_is_context ins ≡ true
      → make_handler go val f ≡ ok h
      → lookup (namespace <> ("." <> name)) hs ≡ some h
      → Decodes go h.param_receivers
          (map
            (λ p. p.bytes)
            (make_request cs (with_channel namespace name ins t) ctr span args).params)
          vs
      → ReturnsChannel go f (call_params go h ctx vs) t v
      → cs.marshal (handle_chan_out js v s).0 ≡ some b
      → js.unmarshal_uint64 b ≡ some (handle_chan_out js v s).1.chan_ctr
      → lookup (int64_succ ctr) c.inflight ≡ some r
      → r.ready ≡ some ready
      → r.ret_ch ≡ sink_of (with_channel namespace name ins t) around receiver
      → m.params ≡ p ∷ q ∷ []
      → js.unmarshal_uint64 p.bytes ≡ some (handle_chan_out js v s).1.chan_ctr
      → (resp : Response go.Value) × (d : WsConn go.Value) × (x : ClientResponse) × (make_rpc_func
            namespace
            (channel_field name ins t)
          ≡ ok (made (with_channel namespace name ins t)))
        × (handle go hs ctx
              (decoded_request (make_request cs (with_channel namespace name ins t) ctr span args))
              (some (λ ch. (handle_chan_out js ch s).0))
            ≡ returns (registered v ∷ written resp ∷ finished true ∷ []))
        × (handle_frame js (arriving cs.marshal resp) c ≡ ok d)
        × (lookup (handle_chan_out js v s).1.chan_ctr d.chan_handlers
            ≡ sink_of (with_channel namespace name ins t) around receiver)
        × (d.effects
            ≡ replied ready x ∷ started (watch_context around (int64_succ ctr)) ∷ c.effects)
        × (finish_call cs
              (with_channel namespace name ins t)
              (int64_succ ctr)
              loop
              chan
              (answered x)
            ≡ ok (value chan ∷ error none ∷ []))
        × (handle_chan_message js m d ≡ ok (emit (sank receiver q.bytes true) d))
  unfolding make_request sink_of
  subscription-handle ctr loop span ctx ready args chan v val f h hs vs b r around receiver c s m p
        q takes made' found ds ret enc dec fly rdy snk ps first =
      let fn = with_channel namespace name ins t in
      let req = make_request cs fn ctr span args in
      let sink : Sink = record { ctx = some around; receiver = receiver } in
      let made_it : sink_of fn around receiver ≡ some sink = rw takes refl in
      let ch = (handle_chan_out js v s).1.chan_ctr in
      let resp = channel_response go (int64_succ ctr) (handle_chan_out js v s).0 in
      let g = arriving cs.marshal resp in
      (
        resp,
        subscribed js (int64_succ ctr) ch sink around ready g c,
        record {
          jsonrpc = g.jsonrpc;
          result = g.result;
          id = own (int64_succ ctr);
          error = g.error;
        },
        becomes_channel namespace name ins t,
        handle-ReturnsChannel go hs ctx (decoded_request req) (λ ch. (handle_chan_out js ch s).0)
            (int64_succ ctr) val f h vs t v found made' refl
            (subst (λ bs. Decodes go h.param_receivers bs vs) (sym (sent-bytes req.params)) ds) ret,
        handle_frame-subscribed js g (int64_succ ctr) r sink around ready ch b c refl refl enc fly
            rdy (snk ∙ made_it) refl dec,
        lookup-insert_self ch sink c.chan_handlers ∙ sym made_it,
        refl,
        finish_call-channel cs namespace name ins t (int64_succ ctr) loop chan g.result none,
        handle_chan_message-subscribed js (int64_succ ctr) ch sink around ready g m p q c ps first,
      )
