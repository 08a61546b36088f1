-- ===== src/Rpc/Websocket/Closing.antt =====
-- The end of a connection: the deferred loop answers whatever is still in flight.
use mathlib.Core.Path.{subst}
use lotus_dashboard.Common.{
  ℕ, ◌+◌, ◌≡◌, ◌≢◌, ◌∙◌, refl, inl, inr, List, [], ◌∷◌, true, false, none, some, ok, arith,
  Option-cases, >>=-eq-ok,
}
use lotus_dashboard.Common.Int.{ℤ, int_eq, int_beq_iff}
use lotus_dashboard.Common.Dict.{Dict, lookup}
use lotus_dashboard.Common.Unique.{IsUnique, total}
use lotus_dashboard.Rpc.Websocket.{
  Json, ClientRequest, WsConn, replied, closed_register, closed_exiting, handle_frame, cancelled,
  emit, wrote_close,
}
use lotus_dashboard.Rpc.Websocket.Loop.{
  Event, received, incoming_closed, requested, stopped, returning, take_request, loop_step, Runs,
  close_all, cancel_all, cleanup, connect, closed_response,
}
use lotus_dashboard.Rpc.Websocket.Replies.{replies, waits}
use lotus_dashboard.Rpc.Websocket.Settled.{asked, IsIssued, Account, Runs-Account}

abbrev AllReady : {V : Type 0} → Dict ℤ (ClientRequest V) → Type 0
AllReady [] = Unit
AllReady ((id, r) ∷ d) = (r.ready ≢ none) × AllReady d

entries_ready :
    {V : Type 0} (d : Dict ℤ (ClientRequest V))
    → IsUnique d
    → ((id : ℤ) (r : ClientRequest V) → lookup id d ≡ some r → r.ready ≢ none)
    → AllReady d
entries_ready [] u h = tt
entries_ready ((id, r) ∷ d) u h = (
  h id r (ground (arith, int_beq_iff id id)),
  entries_ready d u.1 (λ j q g. h j q (ground (arith, int_beq_iff id j, u.0))),
)

replies-cancel_all :
    {V : Type 0} (ch : ℕ) (d : Dict ℤ ℕ) (c : WsConn V)
    → replies ch (cancel_all d c).effects ≡ replies ch c.effects
unfolding cancel_all
replies-cancel_all ch [] c = refl
replies-cancel_all ch ((id, x) ∷ d) c = replies-cancel_all ch d (emit (cancelled x) c)

close_all_lem :
    {V : Type 0} (d : Dict ℤ (ClientRequest V)) (c : WsConn V)
    → AllReady d
    → (x : WsConn V) × (close_all d c ≡ ok x)
      × ((ch : ℕ) → replies ch x.effects ≡ replies ch c.effects + total (waits ch) d)
unfolding close_all
close_all_lem [] c a = (c, refl, λ ch. omega arith)
close_all_lem ((id, r) ∷ d) c a = elim (Option-cases r.ready) [
  | inl e ↦ absurd (a.0 e)
  | inr (k, e) ↦
      let next = cancel_all c.handling (emit (replied k closed_response) c) in
      let (x, p, q) = close_all_lem d next a.1 in
      (
        x,
        rw e p,
        λ ch.
            ground
              (arith, q ch, replies-cancel_all ch c.handling (emit (replied k closed_response) c)),
      )
]

cleanup_lem :
    {V : Type 0} (c : WsConn V) (es : List (Event V))
    → Account c es
    → (x : WsConn V) × (cleanup c ≡ ok x) × ((ch : ℕ) → replies ch x.effects ≡ asked ch es)
unfolding cleanup
cleanup_lem c es a =
    let (x, p, q) =
      close_all_lem c.inflight c
        (entries_ready c.inflight a.unique (λ id r h. (a.known id r h).1)) in
    (emit closed_register (emit closed_exiting x), rw p, λ ch. q ch ∙ a.balance ch)

module _ {V : Type 0} (js : Json V) where
  returning-Account :
      (c d : WsConn V) (ev : Event V) (es : List (Event V))
      → Account c es
      → loop_step js c ev ≡ ok (returning d)
      → Account d es
  unfolding loop_step
  returning-Account c d (received none) es a e = subst (λ x. Account x es) {x = c} (cc) a
  returning-Account c d (received (some f)) es a e =
      let (x, p, q) = >>=-eq-ok (handle_frame js f c) _ e in absurd (ground arith)
  returning-Account c d incoming_closed es a e = subst (λ x. Account x es) {x = c} (cc) a
  returning-Account c d (requested r w) es a e =
      let (x, p, q) = >>=-eq-ok (take_request r w c) _ e in absurd (ground arith)
  returning-Account c d (stopped false) es a e = subst (λ x. Account x es) {x = c} (cc) a
  returning-Account c d (stopped true) es a e =
      subst (λ x. Account x es) {x = emit wrote_close c} (cc)
        (record { unique = a.unique; balance = a.balance; known = a.known })

  -- Whatever a connection receives from its start on: if the requests that it takes have channels
  -- for their answers and ids not used before, then when its loop returns the deferred cleanup runs
  -- to its end, and every channel has been answered as often as requests were taken for it. So
  -- a request with a channel of its own gets exactly one answer, by its response or by the close.
  pub replies-eq-asked :
      (es : List (Event V)) (ev : Event V) (c d : WsConn V)
      → Runs js connect es c
      → IsIssued es
      → loop_step js c ev ≡ ok (returning d)
      → (x : WsConn V) × (cleanup d ≡ ok x) × ((ch : ℕ) → replies ch x.effects ≡ asked ch es)
  replies-eq-asked es ev c d r i e =
      cleanup_lem d es (returning-Account c d ev es (Runs-Account js r i) e)
