-- ===== src/Rpc/Websocket/Starting.antt =====
-- Which messages start a goroutine that handles a call.
use lotus_dashboard.Common.{
  ℕ, ◌+◌, ◌≡◌, ◌⊎◌, inl, inr, refl, List, [], ◌∷◌, Bool, true, false, some, Option-cases, Result,
  ok, fault, arith, string_eq, String, ◌||◌, ◌==◌,
}
use lotus_dashboard.Common.Int.{ℤ, int_eq}
use lotus_dashboard.Common.Dict.{insert}
use lotus_dashboard.Rpc.Message.{Request, Frame, ws_cancel, ch_value, ch_close}
use lotus_dashboard.Rpc.Websocket.{
  Json, WsConn, Effect, next_message, emit, started, call_handler, call_done, handle_chan_out,
  handle_frame, handle_call, handle_response, respond_to, reply, cancel_ctx, handle_chan_message,
  handle_chan_close,
}
use lotus_dashboard.Rpc.Websocket.Loop.{received, running, loop_step}

-- The handlers that a connection has started, each with its context and its request.
abbrev pub handlers : {V : Type 0} → List (Effect V) → List (ℕ × Request V)
handlers [] = []
handlers (started (call_handler ctx req) ∷ es) = (ctx, req) ∷ handlers es
handlers (e ∷ es) = handlers es

-- The request that `handleCall` makes of a frame.
abbrev pub request_in : {V : Type 0} → Frame V → Request V
request_in f = record {
  jsonrpc = f.jsonrpc;
  id = f.id;
  method = f.method;
  params = f.params;
  meta = f.meta;
}

-- The methods that `handleFrame` takes as responses and as instructions of its own.
abbrev pub is_built_in : String → Bool
is_built_in m = (m == "") || ((m == ws_cancel) || ((m == ch_value) || (m == ch_close)))

module _ {V : Type 0} (js : Json V) where
  -- What a handler does to the connection starts no handler.
  pub call_done-handlers :
      (id : ℤ) (k : ℕ) (keep : Bool) (c : WsConn V)
      → handlers (call_done js id k keep c).effects ≡ handlers c.effects
  unfolding call_done
  call_done-handlers id k true c = refl
  call_done-handlers id k false c = refl

  pub handle_chan_out-handlers :
      (ch : V) (c : WsConn V) → handlers (handle_chan_out js ch c).1.effects ≡ handlers c.effects
  unfolding handle_chan_out
  handle_chan_out-handlers ch c = ground arith

  -- A message starts no handler, or one for its call, which has an id, with a new context.
  abbrev pub Starts : Frame V → WsConn V → Result (WsConn V) → Type 0
  Starts f c (ok d) =
      ((handlers d.effects ≡ handlers c.effects) × (d.next_ctx ≡ c.next_ctx))
      ⊎ ((id : ℤ) × (f.id ≡ some id)
          × (handlers d.effects ≡ (c.next_ctx, request_in f) ∷ handlers c.effects)
          × (d.next_ctx ≡ c.next_ctx + 1))
  Starts f c (fault e) = Unit

  handle_response-Starts : (f : Frame V) (c : WsConn V) → Starts f c (handle_response js f c)
  unfolding handle_response respond_to reply
  handle_response-Starts f c = ground arith

  cancel_ctx-Starts : (f : Frame V) (c : WsConn V) → Starts f c (cancel_ctx js f c)
  unfolding cancel_ctx
  cancel_ctx-Starts f c = ground arith

  handle_chan_message-Starts :
      (f : Frame V) (c : WsConn V) → Starts f c (handle_chan_message js f c)
  unfolding handle_chan_message
  handle_chan_message-Starts f c = ground arith

  handle_chan_close-Starts : (f : Frame V) (c : WsConn V) → Starts f c (handle_chan_close js f c)
  unfolding handle_chan_close
  handle_chan_close-Starts f c = ground arith

  handle_call-Starts : (f : Frame V) (c : WsConn V) → Starts f c (handle_call js f c)
  unfolding handle_call
  handle_call-Starts f c = elim (Option-cases f.id) [
    | inl e ↦ rw (e, handle_call) tt
    | inr (id, e) ↦ rw (e, handle_call) (inr (id, refl, refl, refl))
  ]

  pub handle_frame-Starts : (f : Frame V) (c : WsConn V) → Starts f c (handle_frame js f c)
  unfolding handle_frame
  handle_frame-Starts f c = ground (
    arith,
    handle_response-Starts f c,
    cancel_ctx-Starts f c,
    handle_chan_message-Starts f c,
    handle_chan_close-Starts f c,
    handle_call-Starts f c,
  )

  -- A call with an id starts its handler.
  pub received-starts :
      (f : Frame V) (id : ℤ) (c : WsConn V)
      → f.id ≡ some id
      → is_built_in f.method ≡ false
      → (d : WsConn V) × (loop_step js c (received (some f)) ≡ ok (running d))
        × (handlers d.effects ≡ (c.next_ctx, request_in f) ∷ handlers c.effects)
  unfolding loop_step handle_frame handle_call
  received-starts f id c i b = (
    emit (started next_message) (record c {
      handling = insert id c.next_ctx c.handling;
      next_ctx = c.next_ctx + 1;
      effects = started (call_handler c.next_ctx (request_in f)) ∷ c.effects;
    }),
    ground arith,
    refl,
  )
