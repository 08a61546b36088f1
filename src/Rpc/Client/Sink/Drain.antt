-- ===== src/Rpc/Client/Sink/Drain.antt =====
-- The goroutine of `makeOutChan` empties the buffer and ends.
use mathlib.Core.List.{append-nil, append_assoc}
use lotus_dashboard.Common.{
  ℕ, ◌≡◌, ◌≤◌, ◌∙◌, ap, refl, List, [], ◌∷◌, ◌++◌, true, false, Option, ok, ◌>>=◌, arith, length,
  length-append, replicate, Result-cases, inl, inr,
}
use lotus_dashboard.Rpc.Message.{Bytes}
use lotus_dashboard.Rpc.Client.Sink.{
  Buffer, new_buffer, Happens, send_chosen, send_front, sink_step,
}
use lotus_dashboard.Rpc.Client.Sink.Order.{IsQuiet, StaysOpen, messages, sink_run, sink_run_lem}

module _ {V : Type 0} (unmarshal : Bytes → Option V) where
  abbrev emptied : Buffer V → Buffer V
  emptied b = record b { buf = []; working = false; delivered = b.delivered ++ b.buf }

  sink_run-append :
      (hs ks : List Happens) (b : Buffer V)
      → sink_run unmarshal (hs ++ ks) b ≡ (sink_run unmarshal hs b >>= sink_run unmarshal ks)
  unfolding sink_run
  sink_run-append [] ks b = refl
  sink_run-append (h ∷ hs) ks b = elim (Result-cases (sink_step unmarshal h b)) [
    | inl (d, e) ↦ rw (e, sink_run) (sink_run-append hs ks d)
    | inr (x, e) ↦ rw (e, sink_run) refl
  ]

  drains :
      (vs : List V) (b : Buffer V)
      → IsQuiet b
      → b.buf ≡ vs
      → sink_run unmarshal (replicate (length vs) send_chosen) b ≡ ok (emptied b)
  unfolding sink_run sink_step send_front
  drains [] b q e = ground (arith, append-nil b.delivered)
  drains (v ∷ []) b q e =
      let busy : b.working ≡ true = ground (arith, q.worker) in
      rw (e, sink_run, busy, q.open_channel) refl
  drains (v ∷ w ∷ r) b q e =
      let busy : b.working ≡ true = ground (arith, q.worker) in
      let d : Buffer V = record b { buf = w ∷ r; delivered = b.delivered ++ v ∷ [] } in
      let quiet : IsQuiet d = ground (arith, busy) in
      let moved : emptied d ≡ emptied b = rw e (simp append_assoc) in
      let next : sink_step unmarshal send_chosen b ≡ ok d = rw (busy, q.open_channel, e) refl in
      rw next (drains (w ∷ r) d quiet refl ∙ ap ok moved)

  -- Once no more messages come, the goroutine comes to its end: whatever has happened while the
  -- channel was open, as many sends to the reader as there are buffered messages empty the buffer
  -- and end the goroutine, no more are left to send than messages have come, and then the reader
  -- has got the messages that parse, each once and in their order.
  pub sink_run-drains :
      (hs : List Happens)
      → StaysOpen hs
      → (n : ℕ) × (d : Buffer V) × (n ≤ length (messages unmarshal hs))
        × (sink_run unmarshal (hs ++ replicate n send_chosen) new_buffer ≡ ok d)
        × (d.buf ≡ [])
        × (d.working ≡ false)
        × (d.delivered ≡ messages unmarshal hs)
  sink_run-drains hs o =
      let (d, e, q, m) = sink_run_lem unmarshal hs o in
      (
        length d.buf,
        emptied d,
        omega (arith, length-append d.delivered d.buf, ap length m),
        sink_run-append hs (replicate (length d.buf) send_chosen) new_buffer
            ∙ ap (λ r. r >>= sink_run unmarshal (replicate (length d.buf) send_chosen)) e
            ∙ drains d.buf d q refl,
        refl,
        refl,
        m,
      )
