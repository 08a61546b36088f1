-- ===== src/Rpc/Websocket/Subscribed.antt =====
-- What the client's connection does with the response that names a remote channel.
use lotus_dashboard.Common.{ℕ, ◌≡◌, [], ◌∷◌, true, some, ok, string_eq, nat_eq, arith}
use lotus_dashboard.Common.Int.{ℤ, int_eq}
use lotus_dashboard.Common.Dict.{lookup, insert, erase, lookup-insert_self}
use lotus_dashboard.Rpc.Message.{Bytes, Param, Frame, own}
use lotus_dashboard.Rpc.Websocket.{
  Json, Sink, ClientRequest, WsConn, replied, started, watch_context, sank, emit, handle_frame,
  handle_response, respond_to, reply, handle_chan_message, channel_id_or_zero,
}

module _ {V : Type 0} (js : Json V) where
  open js use {unmarshal_uint64}

  -- The client's connection behind a response that names a channel.
  abbrev pub subscribed : ℤ → ℕ → Sink → ℕ → ℕ → Frame V → WsConn V → WsConn V
  subscribed id ch sink ctx ready g c = record c {
    inflight = erase id c.inflight;
    chan_handlers = insert ch sink c.chan_handlers;
    effects =
        replied ready
          (record { jsonrpc = g.jsonrpc; result = g.result; id = own id; error = g.error })
        ∷ started (watch_context ctx id)
        ∷ c.effects;
  }

  pub handle_frame-subscribed :
      (g : Frame V) (id : ℤ) (r : ClientRequest V) (sink : Sink) (ctx ready ch : ℕ) (b : Bytes)
      (c : WsConn V)
      → g.method ≡ ""
      → g.id ≡ some id
      → g.result ≡ some b
      → lookup id c.inflight ≡ some r
      → r.ready ≡ some ready
      → r.ret_ch ≡ some sink
      → sink.ctx ≡ some ctx
      → unmarshal_uint64 b ≡ some ch
      → handle_frame js g c ≡ ok (subscribed id ch sink ctx ready g c)
  unfolding handle_frame handle_response respond_to reply
  handle_frame-subscribed g id r sink ctx ready ch b c m i res l e n k u =
      rw (m, handle_frame) (ground arith)

  -- A message for the channel.
  pub handle_chan_message-subscribed :
      (id : ℤ) (ch : ℕ) (sink : Sink) (ctx ready : ℕ) (g m : Frame V) (p q : Param V) (c : WsConn V)
      → m.params ≡ p ∷ q ∷ []
      → unmarshal_uint64 p.bytes ≡ some ch
      → handle_chan_message js m (subscribed id ch sink ctx ready g c)
        ≡ ok (emit (sank sink.receiver q.bytes true) (subscribed id ch sink ctx ready g c))
  unfolding handle_chan_message channel_id_or_zero
  handle_chan_message-subscribed id ch sink ctx ready g m p q c e u =
      ground (arith, lookup-insert_self ch sink c.chan_handlers)
