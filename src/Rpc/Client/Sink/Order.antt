-- ===== src/Rpc/Client/Sink/Order.antt =====
-- Messages reach the local channel in the order in which they came.
use mathlib.Core.List.{append-nil, append_assoc}
use lotus_dashboard.Common.{
  ◌≡◌, ◌∙◌, sym, ap, refl, List, [], ◌∷◌, ◌++◌, Bool, true, false, Option, none, some, Result, ok,
  fault, ◌>>=◌, arith, length-append, if◌then◌else◌, inl, inr, Option-cases,
}
use lotus_dashboard.Rpc.Message.{Bytes}
use lotus_dashboard.Rpc.Client.Sink.{
  Buffer, new_buffer, Happens, message, remote_closed, context_ended, cancel_chosen, send_chosen,
  push_back, accept, receive, send_front, sink_step,
}

abbrev pub is_empty : {V : Type 0} → List V → Bool
is_empty [] = true
is_empty (v ∷ vs) = false

-- Nothing is closed or cancelled, and a goroutine runs exactly while the buffer holds something.
pub record IsQuiet {V : Type 0} (b : Buffer V) : Type 0 where
  pub open_channel : b.closed ≡ false
  pub live_context : b.ctx_cancelled ≡ false
  pub live_channel : b.ch_cancelled ≡ false
  pub worker : b.working ≡ (if is_empty b.buf then false else true)

-- Neither the remote closes the channel nor the caller's context ends.
abbrev pub StaysOpen : List Happens → Type 0
StaysOpen [] = Unit
StaysOpen (remote_closed ∷ hs) = ⊥
StaysOpen (context_ended ∷ hs) = ⊥
StaysOpen (h ∷ hs) = StaysOpen hs

module _ {V : Type 0} (unmarshal : Bytes → Option V) where
  abbrev listed : Option V → List V
  listed none = []
  listed (some v) = v ∷ []

  abbrev decode_one : Bytes → List V
  decode_one r = listed (unmarshal r)

  -- The values of the messages that parse, oldest first.
  abbrev pub messages : List Happens → List V
  messages [] = []
  messages (message r ∷ hs) = decode_one r ++ messages hs
  messages (h ∷ hs) = messages hs

  unfoldable pub sink_run : List Happens → Buffer V → Result (Buffer V)
  sink_run [] b = ok b
  sink_run (h ∷ hs) b = sink_step unmarshal h b >>= sink_run hs

  -- What one event does to a quiet buffer.
  abbrev Steps : List V → Buffer V → Result (Buffer V) → Type 0
  Steps vs b (ok d) = IsQuiet d × (d.delivered ++ d.buf ≡ (b.delivered ++ b.buf) ++ vs)
  Steps vs b (fault e) = ⊥

  push_back-Steps :
      (v : V) (vs : List V) (b : Buffer V)
      → IsQuiet b
      → b.buf ≡ vs
      → Steps (v ∷ []) b (ok (push_back unmarshal v b))
  unfolding push_back
  push_back-Steps v [] b q e =
      (ground arith, ground (arith, append_assoc b.delivered b.buf (v ∷ [])))
  push_back-Steps v (x ∷ xs) b q e = (
    ground (arith, length-append xs (v ∷ [])),
    ground (arith, append_assoc b.delivered b.buf (v ∷ []), length-append xs (v ∷ [])),
  )

  accept-Steps :
      (c : Bool) (v : V) (b : Buffer V)
      → IsQuiet b
      → c ≡ false
      → Steps (v ∷ []) b (ok (accept unmarshal c v b))
  unfolding accept
  accept-Steps true v b q e = absurd (ground arith)
  accept-Steps false v b q e = push_back-Steps v b.buf b q refl

  unchanged : (b : Buffer V) → IsQuiet b → Steps [] b (ok b)
  unchanged b q = (q, sym (append-nil (b.delivered ++ b.buf)))

  receive-Steps :
      (r : Bytes) (b : Buffer V) → IsQuiet b → Steps (decode_one r) b (ok (receive unmarshal r b))
  unfolding receive
  receive-Steps r b q = elim (Option-cases (unmarshal r)) [
    | inl e ↦ rw (e, receive) (unchanged b q)
    | inr (v, e) ↦ rw (e, receive) (accept-Steps b.ctx_cancelled v b q q.live_context)
  ]

  send_front-Steps :
      (vs : List V) (b : Buffer V)
      → IsQuiet b
      → b.buf ≡ vs
      → Steps [] b (ok (send_front unmarshal vs b))
  unfolding send_front
  send_front-Steps [] b q e = (ground arith, sym (append-nil (b.delivered ++ b.buf)))
  send_front-Steps (v ∷ []) b q e = (ground arith, rw e (simp append-nil))
  send_front-Steps (v ∷ w ∷ r) b q e = (ground arith, rw e (simp (append-nil, append_assoc)))

  -- The messages of one event.
  abbrev pub brings : Happens → List V
  brings (message r) = decode_one r
  brings h = []

  step-Steps :
      (h : Happens) (b : Buffer V)
      → StaysOpen (h ∷ [])
      → IsQuiet b
      → Steps (brings h) b (sink_step unmarshal h b)
  unfolding sink_step
  step-Steps (message r) b o q = receive-Steps r b q
  step-Steps remote_closed b o q = elim o [ ]
  step-Steps context_ended b o q = elim o [ ]
  step-Steps cancel_chosen b o q = ground (arith, unchanged b q)
  step-Steps send_chosen b o q = ground (arith, unchanged b q, send_front-Steps b.buf b q)

  StaysOpen-cons :
      (h : Happens) (hs : List Happens) → StaysOpen (h ∷ hs) → StaysOpen (h ∷ []) × StaysOpen hs
  StaysOpen-cons (message r) hs o = (tt, o)
  StaysOpen-cons remote_closed hs o = elim o [ ]
  StaysOpen-cons context_ended hs o = elim o [ ]
  StaysOpen-cons cancel_chosen hs o = (tt, o)
  StaysOpen-cons send_chosen hs o = (tt, o)

  pub messages-cons :
      (h : Happens) (hs : List Happens) → messages (h ∷ hs) ≡ brings h ++ messages hs
  messages-cons (message r) hs = refl
  messages-cons remote_closed hs = refl
  messages-cons context_ended hs = refl
  messages-cons cancel_chosen hs = refl
  messages-cons send_chosen hs = refl

  join :
      (us vs : List V) (b d : Buffer V) (r : Result (Buffer V))
      → d.delivered ++ d.buf ≡ (b.delivered ++ b.buf) ++ us
      → Steps vs d r
      → Steps (us ++ vs) b r
  join us vs b d (fault e) p s = s
  join us vs b d (ok x) p s =
      (s.0, s.1 ∙ ap (λ l. l ++ vs) p ∙ append_assoc (b.delivered ++ b.buf) us vs)

  chain :
      (us vs : List V) (b : Buffer V) (r : Result (Buffer V)) (k : Buffer V → Result (Buffer V))
      → Steps us b r
      → ((d : Buffer V) → IsQuiet d → Steps vs d (k d))
      → Steps (us ++ vs) b (r >>= k)
  chain us vs b (fault e) k s ih = s
  chain us vs b (ok d) k s ih = join us vs b d (k d) s.1 (ih d s.0)

  run-Steps :
      (hs : List Happens) (b : Buffer V)
      → StaysOpen hs
      → IsQuiet b
      → Steps (messages hs) b (sink_run hs b)
  unfolding sink_run
  run-Steps [] b o q = unchanged b q
  run-Steps (h ∷ hs) b o q =
      let (one, rest) = StaysOpen-cons h hs o in
      rw (messages-cons h hs) (
        chain (brings h) (messages hs) b (sink_step unmarshal h b) (sink_run hs)
          (step-Steps h b one q) (λ d k. run-Steps hs d rest k))

  -- As long as the channel stays open and the context lives, whatever the order of messages and of
  -- the goroutine's turns: no event panics, what the reader has got and what is still buffered are
  -- together the messages that parse, each once and in the order in which they came, and a goroutine
  -- is there to send exactly while something is buffered.
  pub sink_run_lem :
      (hs : List Happens)
      → StaysOpen hs
      → (d : Buffer V) × (sink_run hs new_buffer ≡ ok d)
        × IsQuiet d
        × (d.delivered ++ d.buf ≡ messages hs)
  sink_run_lem hs o = result (sink_run hs new_buffer) (run-Steps hs new_buffer o (ground arith))
    where
      result :
          (r : Result (Buffer V))
          → Steps (messages hs) new_buffer r
          → (d : Buffer V) × (r ≡ ok d) × IsQuiet d × (d.delivered ++ d.buf ≡ messages hs)
      result (ok d) s = (d, refl, s.0, s.1)
      result (fault e) s = elim s [ ]
