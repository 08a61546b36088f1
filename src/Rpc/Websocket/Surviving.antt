-- ===== src/Rpc/Websocket/Surviving.antt =====
-- Which frames a connection of the server survives.
use lotus_dashboard.Common.{
  ◌≡◌, ◌∙◌, refl, sym, ap, inl, inr, List, [], ◌∷◌, Bool, true, false, ◌&&◌, ◌||◌, Option, none,
  some, Result, ok, arith, ◌>>=◌, ◌==◌, string_eq, nat_eq, is_ok, >>=-step, Result-cases,
  if◌then◌else◌,
}
use lotus_dashboard.Common.Int.{ℤ, int_eq}
use lotus_dashboard.Rpc.Message.{Frame, ws_cancel, ch_value, ch_close}
use lotus_dashboard.Rpc.Websocket.{
  Json, WsConn, started, next_message, emit, handle_frame, handle_response, cancel_ctx,
  handle_chan_message, handle_chan_close, handle_call,
}
use lotus_dashboard.Rpc.Websocket.Loop.{received, Loop, running, returning, loop_step, connect}

abbrev pub has_some : {A : Type 0} → List A → Bool
has_some [] = false
has_some (a ∷ as') = true

abbrev pub has_id : Option ℤ → Bool
has_id none = false
has_id (some n) = true

-- A response; a built-in instruction with a parameter; a call with an id.
abbrev pub is_safe : {V : Type 0} → Frame V → Bool
is_safe f =
    if f.method == ""
    then true
    else if (f.method == ws_cancel) || ((f.method == ch_value) || (f.method == ch_close))
    then has_some f.params
    else has_id f.id

abbrev pub all_safe : {V : Type 0} → List (Frame V) → Bool
all_safe [] = true
all_safe (f ∷ fs) = is_safe f && all_safe fs

-- Nothing was sent, so nothing is in flight and no channel is received.
pub record IsServing {V : Type 0} (c : WsConn V) : Type 0 where
  pub none_in_flight : c.inflight ≡ []
  pub no_channels : c.chan_handlers ≡ []

module _ {V : Type 0} (js : Json V) where
  -- The connection behind a turn.
  abbrev pub conn_of : Loop V → WsConn V
  conn_of (running c) = c
  conn_of (returning c) = c

  -- The turns of the loop for frames, oldest first.
  unfoldable pub receive_all : List (Frame V) → WsConn V → Result (WsConn V)
  receive_all [] c = ok c
  receive_all (f ∷ fs) c = loop_step js c (received (some f)) >>= λ l. receive_all fs (conn_of l)

  handle_frame-is_ok :
      (f : Frame V) (c : WsConn V) → IsServing c → is_ok (handle_frame js f c) ≡ is_safe f
  unfolding handle_frame handle_response cancel_ctx handle_chan_message handle_chan_close
      handle_call
  handle_frame-is_ok f c s = ground (arith, s.none_in_flight, s.no_channels)

  handle_frame-IsServing :
      (f : Frame V) (c d : WsConn V) → IsServing c → handle_frame js f c ≡ ok d → IsServing d
  unfolding handle_frame handle_response cancel_ctx handle_chan_message handle_chan_close
      handle_call
  handle_frame-IsServing f c d s e = record {
    none_in_flight = ground (arith, s.none_in_flight, s.no_channels);
    no_channels = ground (arith, s.none_in_flight, s.no_channels);
  }

  receive_all-is_ok :
      (fs : List (Frame V)) (c : WsConn V) → IsServing c → is_ok (receive_all fs c) ≡ all_safe fs
  unfolding receive_all loop_step
  receive_all-is_ok [] c s = refl
  receive_all-is_ok (f ∷ fs) c s = elim (Result-cases (handle_frame js f c)) [
    | inr (x, e) ↦
        let unsafe : is_safe f ≡ false = sym (handle_frame-is_ok f c s) ∙ ap is_ok e in
        rw (e, receive_all, unsafe) refl
    | inl (d, e) ↦
        let safe : is_safe f ≡ true = sym (handle_frame-is_ok f c s) ∙ ap is_ok e in
        let t = handle_frame-IsServing f c d s e in
        rw (e, receive_all, safe)
          (receive_all-is_ok fs (emit (started next_message) d)
            (record { none_in_flight = t.none_in_flight; no_channels = t.no_channels }))
  ]

  IsServing-IsServing :
      (fs : List (Frame V)) (c d : WsConn V) → IsServing c → receive_all fs c ≡ ok d → IsServing d
  unfolding receive_all loop_step
  IsServing-IsServing [] c d s e = record {
    none_in_flight = ground (arith, s.none_in_flight);
    no_channels = ground (arith, s.no_channels);
  }
  IsServing-IsServing (f ∷ fs) c d s e = >>=-step (loop_step js c (received (some f))) _ e λ l p q.
      >>=-step (handle_frame js f c) _ p λ x g r.
        let t = handle_frame-IsServing f c x s g in
        IsServing-IsServing fs (conn_of l) d
          (record {
            none_in_flight = ground (arith, t.none_in_flight);
            no_channels = ground (arith, t.no_channels);
          })
          q

  pub receive_all-IsServing :
      (fs : List (Frame V)) (d : WsConn V) → receive_all fs connect ≡ ok d → IsServing d
  unfolding connect
  receive_all-IsServing fs d e =
      IsServing-IsServing fs connect d (record { none_in_flight = refl; no_channels = refl }) e

  -- A connection on which no request was sent, as each one of the server, gets through a sequence of
  -- frames without a fault exactly if each of them is a response, a built-in instruction that has
  -- a parameter, or a call that has an id.
  pub receive_all-all_safe : (fs : List (Frame V)) → is_ok (receive_all fs connect) ≡ all_safe fs
  unfolding connect
  receive_all-all_safe fs =
      receive_all-is_ok fs connect (record { none_in_flight = refl; no_channels = refl })
