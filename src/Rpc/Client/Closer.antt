-- ===== src/Rpc/Client/Closer.antt =====
-- client.go: the closer that `NewMergeClient` gives back.
use lotus_dashboard.Common.{
  ℕ, ◌≡◌, refl, sym, ap, ◌∙◌, List, ◌∷◌, Bool, Result, ok, fault, ◌>>=◌, >>=-step, blocked, arith,
  if◌then◌else◌,
}
use lotus_dashboard.Rpc.Websocket.{
  Json, WsConn, Effect, closed_register, closed_exiting, emit, wrote_close,
}
use lotus_dashboard.Rpc.Websocket.Loop.{
  Event, stopped, Loop, running, returning, loop_step, Runs, connect, cleanup, close_all,
}
use lotus_dashboard.Rpc.Websocket.Replies.{replies}
use lotus_dashboard.Rpc.Websocket.Settled.{asked, IsIssued}
use lotus_dashboard.Rpc.Websocket.Closing.{replies-eq-asked}

-- A connection whose loop runs, or whose loop has returned, with what it deferred.
pub data Conn (V : Type 0) : Type 0 where
  live ended : WsConn V → Conn V

ok_inj : {A : Type 0} {a b : A} → ◌≡◌ {A = Result A} (ok a) (ok b) → a ≡ b
ok_inj e = cc

module _ {V : Type 0} (js : Json V) where
  -- The loop returns, and what it defers runs.
  after_stop : Loop V → Result (WsConn V)
  after_stop (running c) = fault blocked
  after_stop (returning c) = cleanup c

  -- `close(stop)` makes the loop take that case, at which the close message can be written or not;
  -- `<-exiting` waits for what the loop defers.
  -- Where the loop has returned before, `exiting` is closed, and there is nothing to wait for.
  unfoldable pub closer : Bool → Conn V → Result (WsConn V)
  unfolding after_stop
  closer written (live c) = loop_step js c (stopped written) >>= after_stop
  closer written (ended x) = ok x

  -- What a connection has come to behind these turns of its loop: the loop still runs; or an event
  -- has made it return, and what it defers has run.
  abbrev pub Comes : List (Event V) → Conn V → Type 0
  Comes es (live c) = Runs js connect es c
  Comes es (ended x) =
      (c : WsConn V) × (d : WsConn V) × (ev : Event V) × Runs js connect es c
      × (loop_step js c ev ≡ ok (returning d))
      × (cleanup d ≡ ok x)

  cleanup-closes :
      (d x : WsConn V)
      → cleanup d ≡ ok x
      → (es : List (Effect V)) × (x.effects ≡ closed_register ∷ closed_exiting ∷ es)
  unfolding cleanup
  cleanup-closes d x e = >>=-step (close_all d.inflight d) _ e λ c p q. (c.effects, ground arith)

  -- The closer of a client, called once, returns, if the requests that the loop took had channels
  -- for their answers and ids not used before: after any turns of the loop, whether it still runs
  -- or any event has made it return and what it defers has run to its end. The channel that the
  -- closer waits for is closed then, and every request that was taken has been answered on its
  -- channel, as often as it was taken.
  pub closer-returns :
      (es : List (Event V)) (k : Conn V) (written : Bool)
      → Comes es k
      → IsIssued es
      → (x : WsConn V) × (fs : List (Effect V)) × (closer written k ≡ ok x)
        × (x.effects ≡ closed_register ∷ closed_exiting ∷ fs)
        × ((ch : ℕ) → replies ch x.effects ≡ asked ch es)
  unfolding closer loop_step
  closer-returns es (ended x) written (c, d, ev, r, e, p) i =
      let (y, q, all) = replies-eq-asked js es ev c d r i e in
      let same : y ≡ x = ok_inj (sym q ∙ p) in
      let (fs, k) = cleanup-closes d x p in
      (x, fs, refl, k, λ ch. ap (λ z. replies ch z.effects) (sym same) ∙ all ch)
  closer-returns es (live c) written r i =
      let d : WsConn V = if written then emit wrote_close c else c in
      let (x, p, q) = replies-eq-asked js es (stopped written) c d r i refl in
      let (fs, k) = cleanup-closes d x p in (x, fs, p, k, q)
