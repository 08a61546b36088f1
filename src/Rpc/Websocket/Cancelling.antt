-- ===== src/Rpc/Websocket/Cancelling.antt =====
-- The calls that are being handled when a connection ends.
use lotus_dashboard.Common.{
  ℕ, ◌≡◌, ◌∙◌, refl, sym, ap, List, [], ◌∷◌, Bool, true, false, none, some, ok, arith, string_eq,
  nat_eq, nat_beq, ◌||◌, >>=-step, or_fault, blocked,
}
use lotus_dashboard.Common.Int.{ℤ, int_eq}
use lotus_dashboard.Common.Dict.{Dict, lookup}
use lotus_dashboard.Rpc.Message.{Frame}
use lotus_dashboard.Rpc.Websocket.{
  Json, ClientRequest, WsConn, Effect, cancelled, replied, closed_register, closed_exiting, emit,
  handle_frame, handle_response, cancel_ctx, handle_chan_message, handle_chan_close, handle_call,
}
use lotus_dashboard.Rpc.Websocket.Loop.{
  Event, received, incoming_closed, requested, stopped, running, returning, take_request, loop_step,
  Runs, start, turn, close_all, cancel_all, cleanup, connect, closed_response,
}

-- The loop gets no requests, as on the server's side, where the channel is nil.
abbrev pub NoRequests : {V : Type 0} → List (Event V) → Type 0
NoRequests [] = Unit
NoRequests (requested r w ∷ es) = ⊥
NoRequests (ev ∷ es) = NoRequests es

module _ {V : Type 0} (js : Json V) where
  handle_frame-empty :
      (f : Frame V) (c d : WsConn V)
      → c.inflight ≡ []
      → handle_frame js f c ≡ ok d
      → d.inflight ≡ []
  unfolding handle_frame handle_response cancel_ctx handle_chan_message handle_chan_close
      handle_call
  handle_frame-empty f c d e h = ground arith

  loop_step-empty :
      (c d : WsConn V) (ev : Event V)
      → NoRequests (ev ∷ [])
      → c.inflight ≡ []
      → loop_step js c ev ≡ ok (running d)
      → d.inflight ≡ []
  unfolding loop_step
  loop_step-empty c d (received none) n e h = absurd (ground arith)
  loop_step-empty c d (received (some f)) n e h =
      >>=-step (handle_frame js f c) _ h λ x p q. ground (arith, handle_frame-empty f c x e p)
  loop_step-empty c d incoming_closed n e h = absurd (ground arith)
  loop_step-empty c d (requested r w) n e h = elim n [ ]
  loop_step-empty c d (stopped w) n e h = absurd (ground arith)

  NoRequests-cons :
      (ev : Event V) (es : List (Event V))
      → NoRequests (ev ∷ es)
      → NoRequests (ev ∷ []) × NoRequests es
  NoRequests-cons (received f) es n = (tt, n)
  NoRequests-cons incoming_closed es n = (tt, n)
  NoRequests-cons (requested r w) es n = elim n [ ]
  NoRequests-cons (stopped w) es n = (tt, n)

  Runs-empty :
      {es : List (Event V)} {c : WsConn V} → Runs js connect es c → NoRequests es → c.inflight ≡ []
  unfolding connect
  Runs-empty start n = refl
  Runs-empty (turn {es} {d} {e} ev r h) n =
      let (one, rest) = NoRequests-cons ev es n in loop_step-empty d e ev one (Runs-empty r rest) h

  returning-inflight :
      (c d : WsConn V) (ev : Event V)
      → loop_step js c ev ≡ ok (returning d)
      → (d.inflight ≡ c.inflight) × (d.handling ≡ c.handling)
  unfolding loop_step
  returning-inflight c d (received none) h = ground arith
  returning-inflight c d (received (some f)) h =
      >>=-step (handle_frame js f c) _ h λ x p q. absurd (ground arith)
  returning-inflight c d incoming_closed h = ground arith
  returning-inflight c d (requested r w) h =
      >>=-step (take_request r w c) _ h λ x p q. absurd (ground arith)
  returning-inflight c d (stopped w) h = ground arith

  -- When a connection ends that has taken no requests, as on the server's side, what it defers
  -- closes its two channels and does nothing else: no call that is being handled is cancelled.
  cleanup-NoRequests :
      (es : List (Event V)) (ev : Event V) (c d : WsConn V)
      → Runs js connect es c
      → NoRequests es
      → loop_step js c ev ≡ ok (returning d)
      → (d.handling ≡ c.handling) × (cleanup d ≡ ok (emit closed_register (emit closed_exiting d)))
  unfolding cleanup close_all
  cleanup-NoRequests es ev c d r n h =
      let (i, k) = returning-inflight c d ev h in (k, rw (i ∙ Runs-empty r n, cleanup) refl)

  -- A context is cancelled.
  abbrev is_cancelled : ℕ → List (Effect V) → Bool
  is_cancelled x [] = false
  is_cancelled x (cancelled y ∷ es) = nat_beq y x || is_cancelled x es
  is_cancelled x (e ∷ es) = is_cancelled x es

  cancel_all-keeps :
      (h : Dict ℤ ℕ) (x : ℕ) (c : WsConn V)
      → is_cancelled x c.effects ≡ true
      → is_cancelled x (cancel_all h c).effects ≡ true
  unfolding cancel_all
  cancel_all-keeps [] x c e = e
  cancel_all-keeps ((id, y) ∷ h) x c e = cancel_all-keeps h x (emit (cancelled y) c) (ground arith)

  cancel_all-cancels :
      (h : Dict ℤ ℕ) (id : ℤ) (x : ℕ) (c : WsConn V)
      → lookup id h ≡ some x
      → is_cancelled x (cancel_all h c).effects ≡ true
  unfolding cancel_all
  cancel_all-cancels [] id x c e = absurd (ground arith)
  cancel_all-cancels ((k, y) ∷ h) id x c e = ground (
    arith,
    cancel_all-keeps h x (emit (cancelled y) c),
    cancel_all-cancels h id x (emit (cancelled y) c),
  )

  close_all-keeps :
      (i : Dict ℤ (ClientRequest V)) (x : ℕ) (c d : WsConn V)
      → is_cancelled x c.effects ≡ true
      → close_all i c ≡ ok d
      → is_cancelled x d.effects ≡ true
  unfolding close_all
  close_all-keeps [] x c d e h = ground arith
  close_all-keeps ((id, r) ∷ i) x c d e h = >>=-step (or_fault blocked r.ready) _ h λ ready p q.
      close_all-keeps i x _ d
        (cancel_all-keeps c.handling x (emit (replied ready closed_response) c) e) q

  -- When a connection ends with a request in flight and what it defers runs to its end, then every
  -- call that is being handled is cancelled.
  cleanup-cancels :
      (id key : ℤ) (r : ClientRequest V) (rest : Dict ℤ (ClientRequest V)) (x : ℕ) (c d : WsConn V)
      → c.inflight ≡ (id, r) ∷ rest
      → lookup key c.handling ≡ some x
      → cleanup c ≡ ok d
      → is_cancelled x d.effects ≡ true
  unfolding cleanup close_all
  cleanup-cancels id key r rest x c d e l h = >>=-step (close_all c.inflight c) _ h λ c' p q.
      let first : close_all ((id, r) ∷ rest) c ≡ ok c' = ap (λ i. close_all i c) (sym e) ∙ p in
      >>=-step (or_fault blocked r.ready) _ first λ ready s t.
        let told : is_cancelled x c'.effects ≡ true =
          close_all-keeps rest x _ c'
            (cancel_all-cancels c.handling key x (emit (replied ready closed_response) c) l) t in
        ground arith
