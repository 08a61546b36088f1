-- ===== src/Rpc/Websocket/Dispatch.antt =====
-- What the frames of one exchange do together: a call and its cancellation, a response and its
-- repetition, a channel's messages and its close.
use lotus_dashboard.Common.{
  ℕ, ◌≡◌, refl, List, [], ◌∷◌, map, Bool, true, false, none, some, ok, fault, arith,
  nil_dereference, ◌==◌, string_eq, nat_eq,
}
use lotus_dashboard.Common.Int.{ℤ, int_eq}
use lotus_dashboard.Common.Dict.{lookup, erase, lookup-insert_self, lookup-erase_self}
use lotus_dashboard.Rpc.Message.{Param, Frame, own, ws_cancel, ch_value, ch_close}
use lotus_dashboard.Rpc.Websocket.{
  Json, Sink, ClientRequest, WsConn, wrote, replied, cancelled, sank, emit, reply, respond_to,
  handle_response, handle_ctx_async, cancel_notice, cancel_ctx, handle_chan_message,
  handle_chan_close, handle_call, handle_frame, call_done, channel_id_or_zero,
}
use lotus_dashboard.Rpc.Websocket.Loop.{received, requested, loop_step, take_request}

module _ {V : Type 0} (js : Json V) where
  open js use {unmarshal_int64, unmarshal_uint64, int64_value}

  -- In the state that the start of a call leaves, a cancellation whose first parameter decodes to
  -- the call's id cancels the context that the call was given, and does nothing else.
  cancel_ctx-handle_call :
      (f g : Frame V) (id : ℤ) (p : Param V) (ps : List (Param V)) (c d : WsConn V)
      → f.id ≡ some id
      → handle_call js f c ≡ ok d
      → g.params ≡ p ∷ ps
      → unmarshal_int64 p.bytes ≡ some id
      → cancel_ctx js g d ≡ ok (emit (cancelled c.next_ctx) d)
  unfolding handle_call cancel_ctx
  cancel_ctx-handle_call f g id p ps c d e h q u =
      ground (arith, lookup-insert_self id c.next_ctx c.handling)

  -- Once the handler has called `done` without keeping the context, the context is cancelled, and
  -- a cancellation that names the id does nothing any more.
  cancel_ctx-call_done :
      (g : Frame V) (id : ℤ) (ctx : ℕ) (p : Param V) (ps : List (Param V)) (c : WsConn V)
      → g.params ≡ p ∷ ps
      → unmarshal_int64 p.bytes ≡ some id
      → ((call_done js id ctx false c).effects ≡ cancelled ctx ∷ c.effects)
        × (cancel_ctx js g (call_done js id ctx false c) ≡ ok (call_done js id ctx false c))
  unfolding cancel_ctx call_done
  cancel_ctx-call_done g id ctx p ps c q u = ground (arith, lookup-erase_self id c.handling)

  one_empty :
      (ps : List (Param V))
      → map (λ p. p.bytes) ps ≡ [] ∷ []
      → (p : Param V) × (ps ≡ p ∷ []) × (p.bytes ≡ [])
  one_empty [] e = absurd (ground arith)
  one_empty (p ∷ []) e = (p, refl, ground arith)
  one_empty (p ∷ q ∷ ps) e = absurd (ground arith)

  -- The cancellation that this package sends when a context ends puts no bytes into its parameter.
  -- Where a decoder rejects empty input, as encoding/json does, the other end, which reads the
  -- bytes that were sent, ignores it: its state is unchanged, and no call is cancelled.
  handle_frame-handle_ctx_async :
      (id : ℤ) (g : Frame V) (c d : WsConn V)
      → unmarshal_int64 [] ≡ none
      → g.method ≡ (cancel_notice js id).method
      → map (λ p. p.bytes) g.params ≡ map (λ p. p.bytes) (cancel_notice js id).params
      → (handle_ctx_async js true id c ≡ ok (emit (wrote (cancel_notice js id)) c))
        × (handle_frame js g d ≡ ok d)
  unfolding handle_ctx_async handle_frame cancel_ctx
  handle_frame-handle_ctx_async id g c d z m b =
      let (p, q, e) = one_empty g.params b in (refl, rw (m, handle_frame) (ground (arith, q, e, z)))

  -- A call without an id, its method not a built-in one, stops the loop, and so does a request
  -- without an id: both tests are of an address, and the nil
  -- pointer behind it is read.
  pub without_id_stops :
      (f : Frame V) (r : ClientRequest V) (w : Bool) (c : WsConn V)
      → f.id ≡ none
      → (f.method == "") ≡ false
      → (f.method == ws_cancel) ≡ false
      → (f.method == ch_value) ≡ false
      → (f.method == ch_close) ≡ false
      → r.req.id ≡ none
      → (loop_step js c (received (some f)) ≡ fault nil_dereference)
        × (loop_step js c (requested r w) ≡ fault nil_dereference)
  unfolding loop_step handle_frame handle_call take_request
  without_id_stops f r w c i a b s t q = ground arith

  -- Once a response has answered a request in flight that wants no remote channel, another response
  -- with its id changes nothing.
  pub handle_response_again :
      (f g : Frame V) (id : ℤ) (r : ClientRequest V) (c d : WsConn V)
      → f.id ≡ some id
      → g.id ≡ some id
      → lookup id c.inflight ≡ some r
      → r.ret_ch ≡ none
      → handle_response js f c ≡ ok d
      → handle_response js g d ≡ ok d
  unfolding handle_response respond_to reply
  handle_response_again f g id r c d ef eg h n e = ground (arith, lookup-erase_self id c.inflight)

  pub handle_frame-reply :
      (f : Frame V) (id : ℤ) (ready : ℕ) (r : ClientRequest V) (c : WsConn V)
      → f.method ≡ ""
      → f.id ≡ some id
      → lookup id c.inflight ≡ some r
      → r.ready ≡ some ready
      → r.ret_ch ≡ none
      → (d : WsConn V) × (handle_frame js f c ≡ ok d)
        × (d.effects
            ≡ replied ready
                (record { jsonrpc = f.jsonrpc; result = f.result; id = own id; error = f.error })
              ∷ c.effects)
  unfolding handle_frame handle_response respond_to reply
  handle_frame-reply f id ready r c m i l e n = (
    record c {
      inflight = erase id c.inflight;
      effects =
          replied ready
            (record { jsonrpc = f.jsonrpc; result = f.result; id = own id; error = f.error })
          ∷ c.effects;
    },
    rw (m, handle_frame) (ground (arith)),
    refl,
  )

  -- A close whose parameter decodes to a channel with a handler tells the handler so, and nobody
  -- else; in the state behind it, a message whose first parameter decodes to that channel changes
  -- nothing.
  handle_chan_message-handle_chan_close :
      (f g : Frame V) (ch : ℕ) (hnd : Sink) (p q : Param V) (ps qs : List (Param V)) (c : WsConn V)
      → f.params ≡ p ∷ ps
      → unmarshal_uint64 p.bytes ≡ some ch
      → lookup ch c.chan_handlers ≡ some hnd
      → g.params ≡ q ∷ qs
      → unmarshal_uint64 q.bytes ≡ some ch
      → (d : WsConn V) × (handle_chan_close js f c ≡ ok d)
        × (d.effects ≡ sank hnd.receiver [] false ∷ c.effects)
        × (handle_chan_message js g d ≡ ok d)
  unfolding handle_chan_close handle_chan_message channel_id_or_zero
  handle_chan_message-handle_chan_close f g ch hnd p q ps qs c ef uf h eg ug = (
    record c {
      chan_handlers = erase ch c.chan_handlers;
      effects = sank hnd.receiver [] false ∷ c.effects;
    },
    ground arith,
    refl,
    ground (arith, lookup-erase_self ch c.chan_handlers),
  )
