-- ===== src/Rpc/Websocket/Unheard.antt =====
-- The two ends of a connection together: the ids that one end gives its output channels, the
-- receivers that the other end keeps for them, and the notices that come to these.
use lotus_dashboard.Common.{
  ℕ, suc, ◌^◌, ◌<◌, ◌≡◌, ◌≢◌, refl, inl, inr, List, [], ◌∷◌, none, some, ok, Option, arith,
  string_eq, nat_eq, >>=-step, Option-cases, or_fault, index_out_of_range, get_elem?, ◌==◌,
  Bool-cases,
}
use lotus_dashboard.Common.Int.{ℤ, int_eq}
use lotus_dashboard.Common.Dict.{lookup, lookup-insert, lookup-erase}
use lotus_dashboard.Rpc.Message.{Bytes, Frame, Request}
use lotus_dashboard.Rpc.Websocket.{
  Json, Sink, WsConn, ClientRequest, emit, started, next_message, handle_chan_out, handle_frame,
  handle_response, respond_to, reply, cancel_ctx, handle_chan_message, handle_chan_close,
  handle_call, send_request,
}
use lotus_dashboard.Rpc.Websocket.Loop.{
  Event, received, incoming_closed, requested, stopped, running, take_request, loop_step, Runs,
  start, turn, connect,
}
use lotus_dashboard.Rpc.Websocket.OutChans.{
  OutChans, Chosen, registers, gives, output_closed, control_closed, sends, out_step,
}
use lotus_dashboard.Rpc.Websocket.OutIds.{Life, Life-counter}
use lotus_dashboard.Rpc.Websocket.Notices.{Carries, notified, handle_frame-out_step}

module _ {V : Type 0} (js : Json V) where
  open js use {unmarshal_uint64}

  -- An id that `handleChanOut` gives on a connection with fewer than 2^64 - 1 channels before.
  abbrev pub Issued : ℕ → Type 0
  Issued k =
      (n : ℕ) × (c : WsConn V) × (s : OutChans V) × (ws : List (ℕ × V)) × (ch : V) × Life js n c s
        ws
      × (suc n < 2 ^ 64)
      × (k ≡ (handle_chan_out js ch c).1.chan_ctr)

  -- A response whose result is a number holds such an id.
  abbrev pub NamesIssued : Frame V → Type 0
  NamesIssued f =
      (res : Bytes) (k : ℕ)
      → f.method ≡ ""
      → f.result ≡ some res
      → unmarshal_uint64 res ≡ some k
      → Issued k

  abbrev pub AllNameIssued : List (Event V) → Type 0
  AllNameIssued [] = Unit
  AllNameIssued (received (some f) ∷ es) = NamesIssued f × AllNameIssued es
  AllNameIssued (ev ∷ es) = AllNameIssued es

  Issued-positive : (k : ℕ) → Issued k → k ≢ 0
  unfolding handle_chan_out
  Issued-positive k (n, c, s, ws, ch, l, small, e) z =
      absurd (omega (arith, Life-counter js n c s ws (omega arith) l, e, z))

  respond_to-unheard :
      (id : ℤ) (r : ClientRequest V) (f : Frame V) (o : Option Sink) (res : Option Bytes)
      (c d : WsConn V)
      → ((b : Bytes) (k : ℕ) → res ≡ some b → unmarshal_uint64 b ≡ some k → k ≢ 0)
      → lookup 0 c.chan_handlers ≡ none
      → respond_to js id r f o res c ≡ ok d
      → lookup 0 d.chan_handlers ≡ none
  unfolding respond_to reply
  respond_to-unheard id r f none res c d p e h = ground arith
  respond_to-unheard id r f (some sink) none c d p e h = ground arith
  respond_to-unheard id r f (some sink) (some b) c d p e h =
      elim (Option-cases (unmarshal_uint64 b)) [
        | inl u ↦ ground arith
        | inr (k, u) ↦ elim (Option-cases sink.ctx) [
          | inl w ↦ absurd (ground arith)
          | inr (x, w) ↦ ground (arith, p b k refl u, lookup-insert k 0 sink c.chan_handlers)
        ]
      ]

  handle_response-unheard :
      (f : Frame V) (c d : WsConn V)
      → f.method ≡ ""
      → NamesIssued f
      → lookup 0 c.chan_handlers ≡ none
      → handle_response js f c ≡ ok d
      → lookup 0 d.chan_handlers ≡ none
  unfolding handle_response
  handle_response-unheard f c d m n e h = elim (Option-cases f.id) [
    | inl i ↦ ground arith
    | inr (id, i) ↦ elim (Option-cases (lookup id c.inflight)) [
      | inl l ↦ ground arith
      | inr (r, l) ↦
          respond_to-unheard id r f r.ret_ch f.result c d
            (λ b k p q. Issued-positive k (n b k m p q)) e (rw (i, handle_response, l) at h)
    ]
  ]

  handle_chan_close-unheard :
      (f : Frame V) (c d : WsConn V)
      → lookup 0 c.chan_handlers ≡ none
      → handle_chan_close js f c ≡ ok d
      → lookup 0 d.chan_handlers ≡ none
  unfolding handle_chan_close
  handle_chan_close-unheard f c d e h =
      >>=-step (or_fault index_out_of_range (get_elem? f.params 0)) _ h λ p q s.
        elim (Option-cases (unmarshal_uint64 p.bytes)) [
          | inl u ↦ ground arith
          | inr (k, u) ↦ ground (arith, lookup-erase k 0 c.chan_handlers)
        ]

  handle_frame-unheard :
      (f : Frame V) (c d : WsConn V)
      → NamesIssued f
      → lookup 0 c.chan_handlers ≡ none
      → handle_frame js f c ≡ ok d
      → lookup 0 d.chan_handlers ≡ none
  unfolding handle_frame cancel_ctx handle_chan_message handle_call
  handle_frame-unheard f c d n e h = elim (Bool-cases (f.method == "")) [
    | inl m ↦
        handle_response-unheard f c d ((string_eq.beq_iff f.method "").0 m) n e
          (rw (handle_frame, m) at h)
    | inr m ↦ ground (arith, handle_chan_close-unheard f c d e)
  ]

  loop_step-unheard :
      (c d : WsConn V) (ev : Event V)
      → AllNameIssued (ev ∷ [])
      → lookup 0 c.chan_handlers ≡ none
      → loop_step js c ev ≡ ok (running d)
      → lookup 0 d.chan_handlers ≡ none
  unfolding loop_step take_request send_request
  loop_step-unheard c d (received none) n e h = absurd (ground arith)
  loop_step-unheard c d (received (some f)) n e h =
      >>=-step (handle_frame js f c) _ h λ x p q. ground (arith, handle_frame-unheard f c x n.0 e p)
  loop_step-unheard c d incoming_closed n e h = absurd (ground arith)
  loop_step-unheard c d (requested r w) n e h = ground arith
  loop_step-unheard c d (stopped w) n e h = absurd (ground arith)

  AllNameIssued-cons :
      (ev : Event V) (es : List (Event V))
      → AllNameIssued (ev ∷ es)
      → AllNameIssued (ev ∷ []) × AllNameIssued es
  AllNameIssued-cons (received none) es n = (tt, n)
  AllNameIssued-cons (received (some f)) es n = ((n.0, tt), n.1)
  AllNameIssued-cons incoming_closed es n = (tt, n)
  AllNameIssued-cons (requested r w) es n = (tt, n)
  AllNameIssued-cons (stopped w) es n = (tt, n)

  Runs-unheard :
      {es : List (Event V)} {c : WsConn V}
      → Runs js connect es c
      → AllNameIssued es
      → lookup 0 c.chan_handlers ≡ none
  unfolding connect
  Runs-unheard start n = refl
  Runs-unheard (turn {es} {d} {e} ev r h) n =
      let (one, rest) = AllNameIssued-cons ev es n in
      loop_step-unheard d e ev one (Runs-unheard r rest) h

  notified-unheard :
      (ev : Chosen V) (c : WsConn V) → lookup 0 c.chan_handlers ≡ none → notified js ev c ≡ c
  notified-unheard (gives k val) c e = rw e refl
  notified-unheard (output_closed k) c e = refl
  notified-unheard (registers id ch) c e = refl
  notified-unheard control_closed c e = refl

  -- No value and no close of an output channel ever comes to its receiver, where a decoder rejects
  -- empty input, as encoding/json does. If each response so far whose result is a number has held an
  -- id that `handleChanOut` gives on a connection with fewer than 2^64 - 1 channels before it, then
  -- a turn of the loop that receives a notice of `handleOutChans` calls no receiver: it just starts
  -- the wait for the next message.
  pub loop_step-out_step :
      (es : List (Event V)) (c : WsConn V) (s t : OutChans V) (ev : Chosen V) (req : Request V)
      (g : Frame V)
      → unmarshal_uint64 [] ≡ none
      → Runs js connect es c
      → AllNameIssued es
      → out_step js s ev ≡ ok (sends req t)
      → Carries g req
      → loop_step js c (received (some g)) ≡ ok (running (emit (started next_message) c))
  unfolding loop_step
  loop_step-out_step es c s t ev req g z r n e h =
      rw (handle_frame-out_step js s t ev req g c z e h, notified-unheard ev c (Runs-unheard r n))
        refl
