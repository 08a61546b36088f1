-- ===== src/Rpc/Websocket/Notices.antt =====
-- The notices of `handleOutChans` at the other end of the connection.
use lotus_dashboard.Common.{
  ℕ, ◌≡◌, ◌≢◌, ap, ◌∙◌, refl, List, [], ◌∷◌, map, true, Option, none, some, Result, ok, arith, ◌-◌,
  length, get_elem?, index_out_of_range, >>=-step, or_fault, string_eq, nat_eq,
}
use lotus_dashboard.Common.Dict.{lookup}
use lotus_dashboard.Rpc.Message.{Param, Request, Frame, ch_value, ch_close}
use lotus_dashboard.Rpc.Websocket.{
  Json, Sink, WsConn, sank, emit, channel_id_or_zero, handle_chan_message, handle_chan_close,
  handle_frame,
}
use lotus_dashboard.Rpc.Websocket.OutChans.{
  OutChans, Chosen, control_closed, registers, gives, output_closed, Turn, sends, close_notice,
  value_notice, out_step, swap_last,
}

-- A frame with the method and the bytes of a request.
pub record Carries {V : Type 0} (g : Frame V) (req : Request V) : Type 0 where
  pub method : g.method ≡ req.method
  pub bytes : map (λ p. p.bytes) g.params ≡ map (λ p. p.bytes) req.params

-- A message for a receiver, if there is one.
abbrev pub sink_empty : {V : Type 0} → Option Sink → WsConn V → WsConn V
sink_empty none c = c
sink_empty (some hnd) c = emit (sank hnd.receiver [] true) c

same :
    {V : Type 0} {r q : Request V} {s t : OutChans V}
    → ◌≡◌ {A = Result (Turn V)} (ok (sends r s)) (ok (sends q t))
    → q ≡ r
same f = cc

module _ {V : Type 0} (js : Json V) where
  open js use {unmarshal_uint64}

  control_closed-sends :
      (s t : OutChans V) (req : Request V) → out_step js s control_closed ≢ ok (sends req t)
  unfolding out_step
  control_closed-sends s t req e = ground arith

  registers-sends :
      (s t : OutChans V) (req : Request V) (id : ℕ) (ch : V)
      → out_step js s (registers id ch) ≢ ok (sends req t)
  unfolding out_step
  registers-sends s t req id ch e = ground arith

  gives-notice :
      (s t : OutChans V) (k : ℕ) (val : V) (req : Request V)
      → out_step js s (gives k val) ≡ ok (sends req t)
      → (id : ℕ) × (req ≡ value_notice js id val)
  unfolding out_step
  gives-notice s t k val req e =
      >>=-step (or_fault index_out_of_range (get_elem? s.ids (k - 1))) _ e λ id p q. (id, same q)

  closed-notice :
      (s t : OutChans V) (k : ℕ) (req : Request V)
      → out_step js s (output_closed k) ≡ ok (sends req t)
      → (id : ℕ) × (req ≡ close_notice js id)
  unfolding out_step
  closed-notice s t k req e = >>=-step (swap_last k (length s.ids) s) _ e λ u p q.
      >>=-step (or_fault index_out_of_range (get_elem? u.ids (k - 1))) _ q λ id p' q'. (id, same q')

  value_frame :
      (ps : List (Param V)) (g : Frame V) (c : WsConn V)
      → unmarshal_uint64 [] ≡ none
      → g.method ≡ ch_value
      → g.params ≡ ps
      → map (λ p. p.bytes) ps ≡ [] ∷ [] ∷ []
      → handle_frame js g c ≡ ok (sink_empty (lookup 0 c.chan_handlers) c)
  unfolding handle_frame handle_chan_message channel_id_or_zero
  value_frame (p ∷ q ∷ []) g c z m e b =
      let first : p.bytes ≡ [] = ground arith in
      let second : q.bytes ≡ [] = ground arith in
      rw (m, handle_frame) (ground (arith, e, first, second, z))
  value_frame ps g c z m e b = absurd (ground arith)

  close_frame :
      (ps : List (Param V)) (g : Frame V) (c : WsConn V)
      → unmarshal_uint64 [] ≡ none
      → g.method ≡ ch_close
      → g.params ≡ ps
      → map (λ p. p.bytes) ps ≡ [] ∷ []
      → handle_frame js g c ≡ ok c
  unfolding handle_frame handle_chan_close
  close_frame (p ∷ []) g c z m e b =
      let first : p.bytes ≡ [] = ground arith in rw (m, handle_frame, e, first, z) refl
  close_frame ps g c z m e b = absurd (ground arith)

  -- What the other end does with the notice of a turn: a value is a message for channel 0.
  abbrev pub notified : Chosen V → WsConn V → WsConn V
  notified (gives k val) c = sink_empty (lookup 0 c.chan_handlers) c
  notified ev c = c

  -- Where a decoder rejects empty input, as encoding/json does: each value of an output channel
  -- reaches the other end as a message for channel 0 with nothing in it, whatever the channel and
  -- the value were, and is dropped if channel 0 has no receiver; the close of an output channel
  -- changes nothing at the other end.
  pub handle_frame-out_step :
      (s t : OutChans V) (ev : Chosen V) (req : Request V) (g : Frame V) (c : WsConn V)
      → unmarshal_uint64 [] ≡ none
      → out_step js s ev ≡ ok (sends req t)
      → Carries g req
      → handle_frame js g c ≡ ok (notified ev c)
  handle_frame-out_step s t (gives k val) req g c z e h =
      let (id, r) = gives-notice s t k val req e in
      value_frame g.params g c z (h.method ∙ ap (λ q. q.method) r) refl
        (h.bytes ∙ ap (λ q. map (λ p. p.bytes) q.params) r)
  handle_frame-out_step s t (output_closed k) req g c z e h =
      let (id, r) = closed-notice s t k req e in
      close_frame g.params g c z (h.method ∙ ap (λ q. q.method) r) refl
        (h.bytes ∙ ap (λ q. map (λ p. p.bytes) q.params) r)
  handle_frame-out_step s t control_closed req g c z e h = absurd (control_closed-sends s t req e)
  handle_frame-out_step s t (registers id ch) req g c z e h =
      absurd (registers-sends s t req id ch e)
