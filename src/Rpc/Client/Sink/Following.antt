-- ===== src/Rpc/Client/Sink/Following.antt =====
-- What one event does to the messages of a remote channel, behind its close and the context's end
-- too.
use mathlib.Core.List.{append-nil, append_assoc}
use lotus_dashboard.Common.{
  ◌≡◌, ◌∙◌, sym, ap, refl, List, [], ◌∷◌, ◌++◌, Bool, true, false, Option, Result, ok, fault, arith,
  length, ltb, send_on_closed, if◌then◌else◌, inl, inr, Option-cases, Bool-cases,
}
use lotus_dashboard.Rpc.Message.{Bytes}
use lotus_dashboard.Rpc.Client.Sink.{
  Buffer, Happens, message, remote_closed, context_ended, cancel_chosen, send_chosen, push_back,
  accept, receive, send_front, sink_step,
}
use lotus_dashboard.Rpc.Client.Sink.Order.{brings}

abbrev pub is_close : Happens → Bool
is_close remote_closed = true
is_close h = false

-- The messages came in the order: sent, still buffered, lost. Nothing is lost before the end of the
-- context, and nothing more is sent once the channel is closed.
pub data Follows {V : Type 0} (ms : List V) (b : Buffer V) : Type 0 where
  while_open :
      (lost : List V)
      → b.closed ≡ false
      → (b.delivered ++ b.buf) ++ lost ≡ ms
      → (b.ctx_cancelled ≡ false → (lost ≡ []) × (b.ch_cancelled ≡ false))
      → Follows ms b
  once_closed : (lost : List V) → b.closed ≡ true → b.delivered ++ lost ≡ ms → Follows ms b

module _ {V : Type 0} (unmarshal : Bytes → Option V) where
  abbrev pub Goes : Happens → List V → Buffer V → Result (Buffer V) → Type 0
  Goes h ms b (ok d) =
      Follows (ms ++ brings unmarshal h) d × (d.closed ≡ (if is_close h then true else b.closed))
  Goes h ms b (fault e) = b.closed ≡ true

  longer : (l us ms vs : List V) → l ++ us ≡ ms → l ++ (us ++ vs) ≡ ms ++ vs
  longer l us ms vs e = sym (append_assoc l us vs) ∙ ap (λ x. x ++ vs) e

  -- One more message is lost.
  loses :
      (v : V) (ms : List V) (b : Buffer V)
      → Follows ms b
      → b.ctx_cancelled ≡ true
      → Follows (ms ++ v ∷ []) b
  loses v ms b (while_open lost o e n) c =
      while_open (lost ++ v ∷ []) o (longer (b.delivered ++ b.buf) lost ms (v ∷ []) e)
        (λ l. absurd (ground arith))
  loses v ms b (once_closed lost o e) c =
      once_closed (lost ++ v ∷ []) o (longer b.delivered lost ms (v ∷ []) e)

  -- One more message is buffered.
  buffers :
      (v : V) (w : Bool) (ms : List V) (b : Buffer V)
      → Follows ms b
      → b.ctx_cancelled ≡ false
      → Follows (ms ++ v ∷ []) (record b { buf = b.buf ++ v ∷ []; working = w })
  buffers v w ms b (while_open lost o e n) l =
      let nil : lost ≡ [] = (n l).0 in
      let kept : b.delivered ++ b.buf ≡ ms =
        sym (append-nil (b.delivered ++ b.buf))
        ∙ ap (λ x. (b.delivered ++ b.buf) ++ x) (sym nil)
        ∙ e in
      let grown : (b.delivered ++ (b.buf ++ v ∷ [])) ++ [] ≡ ms ++ v ∷ [] =
        append-nil (b.delivered ++ (b.buf ++ v ∷ [])) ∙ longer b.delivered b.buf ms (v ∷ []) kept in
      while_open [] o grown (λ l'. (refl, (n l').1))
  buffers v w ms b (once_closed lost o e) l =
      once_closed (lost ++ v ∷ []) o (longer b.delivered lost ms (v ∷ []) e)

  push_back-Follows :
      (v : V) (ms : List V) (b : Buffer V)
      → Follows ms b
      → b.ctx_cancelled ≡ false
      → Follows (ms ++ v ∷ []) (push_back unmarshal v b)
        × ((push_back unmarshal v b).closed ≡ b.closed)
  unfolding push_back
  push_back-Follows v ms b f l = elim (Bool-cases (ltb 1 (length (b.buf ++ v ∷ [])))) [
    | inl q ↦ rw q (buffers v b.working ms b f l, refl)
    | inr q ↦ rw q (buffers v true ms b f l, refl)
  ]

  accept-Follows :
      (c : Bool) (v : V) (ms : List V) (b : Buffer V)
      → Follows ms b
      → b.ctx_cancelled ≡ c
      → Follows (ms ++ v ∷ []) (accept unmarshal c v b)
        × ((accept unmarshal c v b).closed ≡ b.closed)
  unfolding accept
  accept-Follows true v ms b f c = (loses v ms b f c, refl)
  accept-Follows false v ms b f c = push_back-Follows v ms b f c

  unchanged : (ms : List V) (b : Buffer V) → Follows ms b → Follows (ms ++ []) b
  unchanged ms b f = rw (append-nil ms) f

  receive-Goes :
      (r : Bytes) (ms : List V) (b : Buffer V)
      → Follows ms b
      → Goes (message r) ms b (ok (receive unmarshal r b))
  unfolding receive
  receive-Goes r ms b f = elim (Option-cases (unmarshal r)) [
    | inl e ↦ rw (e, receive) (unchanged ms b f, refl)
    | inr (v, e) ↦ rw (e, receive) (accept-Follows b.ctx_cancelled v ms b f refl)
  ]

  works :
      (w : Bool) (ms : List V) (b : Buffer V)
      → Follows ms b
      → Follows (ms ++ []) (record b { working = w })
  works w ms b (while_open lost o e n) = while_open lost o (e ∙ sym (append-nil ms)) n
  works w ms b (once_closed lost o e) = once_closed lost o (e ∙ sym (append-nil ms))

  -- The goroutine moves messages from the buffer to the reader.
  moves :
      (us vs : List V) (w : Bool) (ms : List V) (b : Buffer V)
      → Follows ms b
      → b.closed ≡ false
      → b.buf ≡ us ++ vs
      → Follows (ms ++ []) (record b { buf = vs; working = w; delivered = b.delivered ++ us })
  moves us vs w ms b (while_open lost o e n) c q =
      let moved : (b.delivered ++ us) ++ vs ≡ b.delivered ++ b.buf =
        append_assoc b.delivered us vs ∙ ap (λ x. b.delivered ++ x) (sym q) in
      while_open lost o (ap (λ x. x ++ lost) moved ∙ e ∙ sym (append-nil ms)) n
  moves us vs w ms b (once_closed lost o e) c q = absurd (ground arith)

  send_front-Goes :
      (vs ms : List V) (b : Buffer V)
      → Follows ms b
      → b.buf ≡ vs
      → b.closed ≡ false
      → Goes send_chosen ms b (ok (send_front unmarshal vs b))
  unfolding send_front
  send_front-Goes [] ms b f e o = (works false ms b f, refl)
  send_front-Goes (v ∷ []) ms b f e o = (moves (v ∷ []) [] false ms b f o e, refl)
  send_front-Goes (v ∷ w ∷ r) ms b f e o = (moves (v ∷ []) (w ∷ r) b.working ms b f o e, refl)

  -- The remote closes the channel.
  shuts :
      (ms : List V) (b : Buffer V)
      → Follows ms b
      → Follows (ms ++ []) (record b { closed = true; ch_cancelled = true })
  shuts ms b (while_open lost o e n) =
      once_closed (b.buf ++ lost) refl
        (sym (append_assoc b.delivered b.buf lost) ∙ e ∙ sym (append-nil ms))
  shuts ms b (once_closed lost o e) = once_closed lost refl (e ∙ sym (append-nil ms))

  -- The caller's context ends.
  ends :
      (ms : List V) (b : Buffer V)
      → Follows ms b
      → Follows (ms ++ []) (record b { ctx_cancelled = true; ch_cancelled = true })
  ends ms b (while_open lost o e n) =
      while_open lost o (e ∙ sym (append-nil ms)) (λ l. absurd (ground arith))
  ends ms b (once_closed lost o e) = once_closed lost o (e ∙ sym (append-nil ms))

  -- The goroutine finds its context cancelled.
  drops :
      (ms : List V) (b : Buffer V)
      → Follows ms b
      → b.ch_cancelled ≡ true
      → Follows (ms ++ []) (record b { buf = []; working = false })
  drops ms b (while_open lost o e n) c =
      let dropped : (b.delivered ++ []) ++ (b.buf ++ lost) ≡ ms =
        ap (λ x. x ++ (b.buf ++ lost)) (append-nil b.delivered)
        ∙ sym (append_assoc b.delivered b.buf lost)
        ∙ e in
      while_open (b.buf ++ lost) o (dropped ∙ sym (append-nil ms))
        (λ l. absurd (ground (arith, n l)))
  drops ms b (once_closed lost o e) c = once_closed lost o (e ∙ sym (append-nil ms))

  cancel-Goes :
      (w c : Bool) (ms : List V) (b : Buffer V)
      → Follows ms b
      → b.ch_cancelled ≡ c
      → Goes cancel_chosen ms b
          (if w then (if c then ok (record b { buf = []; working = false }) else ok b) else ok b)
  cancel-Goes false c ms b f e = (unchanged ms b f, refl)
  cancel-Goes true false ms b f e = (unchanged ms b f, refl)
  cancel-Goes true true ms b f e = (drops ms b f e, refl)

  sends-Goes :
      (w c : Bool) (ms : List V) (b : Buffer V)
      → Follows ms b
      → b.closed ≡ c
      → Goes send_chosen ms b (
          if w
          then (if c then fault send_on_closed else ok (send_front unmarshal b.buf b))
          else ok b)
  sends-Goes false c ms b f e = (unchanged ms b f, refl)
  sends-Goes true false ms b f e = send_front-Goes b.buf ms b f refl e
  sends-Goes true true ms b f e = e

  pub step-Goes :
      (h : Happens) (ms : List V) (b : Buffer V)
      → Follows ms b
      → Goes h ms b (sink_step unmarshal h b)
  unfolding sink_step
  step-Goes (message r) ms b f = receive-Goes r ms b f
  step-Goes remote_closed ms b f = elim (Bool-cases b.closed) [
    | inl c ↦ simp c refl
    | inr o ↦ simp o (shuts ms b f, refl)
  ]
  step-Goes context_ended ms b f = (ends ms b f, refl)
  step-Goes cancel_chosen ms b f = cancel-Goes b.working b.ch_cancelled ms b f refl
  step-Goes send_chosen ms b f = sends-Goes b.working b.closed ms b f refl
