-- ===== src/Rpc/Client/Sink/Pending.antt =====
-- What a close of the remote channel does to messages that are still buffered.
use lotus_dashboard.Common.{
  ◌≡◌, ◌∙◌, refl, inl, inr, List, [], ◌∷◌, Bool, true, false, Option, Option-cases, ok, fault,
  >>=-step, send_on_closed, arith,
}
use lotus_dashboard.Rpc.Message.{Bytes}
use lotus_dashboard.Rpc.Client.Sink.{
  Buffer, Happens, message, remote_closed, context_ended, send_chosen, cancel_chosen, push_back,
  accept, receive, sink_step,
}
use lotus_dashboard.Rpc.Client.Sink.Order.{IsQuiet, sink_run}

module _ {V : Type 0} (unmarshal : Bytes → Option V) where
  accept-delivered :
      (c : Bool) (v : V) (b : Buffer V)
      → ((accept unmarshal c v b).delivered ≡ b.delivered)
        × ((accept unmarshal c v b).closed ≡ b.closed)
  unfolding accept push_back
  accept-delivered c v b = ground arith

  -- A step behind the close gives the reader nothing, and leaves the channel closed.
  step-closed :
      (h : Happens) (b d : Buffer V)
      → b.closed ≡ true
      → sink_step unmarshal h b ≡ ok d
      → (d.delivered ≡ b.delivered) × (d.closed ≡ true)
  unfolding sink_step receive
  step-closed (message r) b d c e = elim (Option-cases (unmarshal r)) [
    | inl u ↦ ground arith
    | inr (v, u) ↦ ground (arith, accept-delivered b.ctx_cancelled v b)
  ]
  step-closed remote_closed b d c e = absurd (ground arith)
  step-closed context_ended b d c e = ground arith
  step-closed cancel_chosen b d c e = ground arith
  step-closed send_chosen b d c e = ground arith

  run-closed :
      (hs : List Happens) (b d : Buffer V)
      → b.closed ≡ true
      → sink_run unmarshal hs b ≡ ok d
      → d.delivered ≡ b.delivered
  unfolding sink_run
  run-closed [] b d c e = ground arith
  run-closed (h ∷ hs) b d c e =
      >>=-step (sink_step unmarshal h b) _ e
        λ x p q. let (same, still) = step-closed h b x c p in run-closed hs x d still q ∙ same

  -- A close of the remote channel loses what is still buffered: in every run that begins with it and
  -- does not panic, whatever comes after, the reader gets nothing more than it had. A send that the
  -- goroutine chooses right behind the close panics; and there is a run that does not panic: the
  -- goroutine finds its context cancelled, and the buffer is emptied.
  pub pending_is_lost :
      (b : Buffer V) (v : V) (vs : List V)
      → IsQuiet b
      → b.buf ≡ v ∷ vs
      → ((hs : List Happens) (d : Buffer V)
          → sink_run unmarshal (remote_closed ∷ hs) b ≡ ok d
          → d.delivered ≡ b.delivered)
        × (sink_run unmarshal (remote_closed ∷ send_chosen ∷ []) b ≡ fault send_on_closed)
        × ((d : Buffer V) × (sink_run unmarshal (remote_closed ∷ cancel_chosen ∷ []) b ≡ ok d)
            × (d.buf ≡ []))
  unfolding sink_run sink_step
  pending_is_lost b v vs q n =
      let busy : b.working ≡ true = ground (arith, q.worker) in
      let shut : Buffer V = record b { closed = true; ch_cancelled = true } in
      let closes : sink_step unmarshal remote_closed b ≡ ok shut = ground (arith, q.open_channel) in
      let panics : sink_step unmarshal send_chosen shut ≡ fault send_on_closed =
        ground (arith, busy) in
      let ends : sink_step unmarshal cancel_chosen shut
          ≡ ok (record shut { buf = []; working = false }) =
        ground (arith, busy) in
      (
        λ hs d e. run-closed hs shut d refl (rw closes at e),
        rw (closes, panics) refl,
        (record shut { buf = []; working = false }, rw (closes, ends) refl, refl),
      )
