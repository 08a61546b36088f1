-- ===== src/Rpc/Client/Sink/Prefix.antt =====
-- What the reader of a remote channel gets when the channel is closed or the caller's context ends.
use mathlib.Core.Path.{subst}
use mathlib.Core.List.{append-nil, append_assoc}
use lotus_dashboard.Common.{
  ◌≡◌, ◌∙◌, sym, ap, refl, List, [], ◌∷◌, ◌++◌, Bool, true, false, Option, Result, ok, fault, arith,
  if◌then◌else◌, inl, inr, Result-cases,
}
use lotus_dashboard.Rpc.Message.{Bytes}
use lotus_dashboard.Rpc.Client.Sink.{Buffer, new_buffer, Happens, sink_step}
use lotus_dashboard.Rpc.Client.Sink.Order.{messages, messages-cons, brings, sink_run}
use lotus_dashboard.Rpc.Client.Sink.Following.{
  Follows, while_open, once_closed, is_close, Goes, step-Goes,
}

-- Whether the remote closes the channel.
abbrev pub closes : List Happens → Bool
closes [] = false
closes (h ∷ hs) = if is_close h then true else closes hs

module _ {V : Type 0} (unmarshal : Bytes → Option V) where
  -- What the reader has got is the beginning of `ms`; a panic needs a close.
  abbrev pub Delivers : Bool → List V → Result (Buffer V) → Type 0
  Delivers c ms (ok d) = (lost : List V) × (d.delivered ++ lost ≡ ms)
  Delivers c ms (fault e) = c ≡ true

  Follows-Delivers : (c : Bool) (ms : List V) (b : Buffer V) → Follows ms b → Delivers c ms (ok b)
  Follows-Delivers c ms b (while_open lost o e n) =
      (b.buf ++ lost, sym (append_assoc b.delivered b.buf lost) ∙ e)
  Follows-Delivers c ms b (once_closed lost o e) = (lost, e)

  run-Delivers :
      (hs : List Happens) (ms : List V) (b : Buffer V)
      → Follows ms b
      → Delivers
          (if b.closed then true else closes hs)
          (ms ++ messages unmarshal hs)
          (sink_run unmarshal hs b)
  unfolding sink_run
  run-Delivers [] ms b f =
      rw (append-nil ms) (Follows-Delivers (if b.closed then true else false) ms b f)
  run-Delivers (h ∷ hs) ms b f = elim (Result-cases (sink_step unmarshal h b)) [
    | inl (d, e) ↦
        let (follows, closed) = subst (Goes unmarshal h ms b) e (step-Goes unmarshal h ms b f) in
        let rest = run-Delivers hs (ms ++ brings unmarshal h) d follows in
        let lists : (ms ++ brings unmarshal h) ++ messages unmarshal hs
            ≡ ms ++ messages unmarshal (h ∷ hs) =
          append_assoc ms (brings unmarshal h) (messages unmarshal hs)
          ∙ ap (λ l. ms ++ l) (sym (messages-cons unmarshal h hs)) in
        let flag : (if d.closed then true else closes hs)
            ≡ (if b.closed then true else closes (h ∷ hs)) =
          ground arith in
        rw e (
          subst (λ c. Delivers c (ms ++ messages unmarshal (h ∷ hs)) (sink_run unmarshal hs d)) flag
            (subst
              (λ l. Delivers (if d.closed then true else closes hs) l (sink_run unmarshal hs d))
              lists rest))
    | inr (x, e) ↦
        let closed : b.closed ≡ true =
          subst (Goes unmarshal h ms b) e (step-Goes unmarshal h ms b f) in
        rw (e, closed) refl
  ]

  -- Whatever happens, in any order: either no event panics, and what the reader has got is the
  -- beginning of the messages that parse, each once and in the order in which they came; or an event
  -- panics, and then the remote's close of the channel is one of the events.
  pub sink_run-Delivers :
      (hs : List Happens)
      → Delivers (closes hs) (messages unmarshal hs) (sink_run unmarshal hs new_buffer)
  sink_run-Delivers hs = run-Delivers hs [] new_buffer (while_open [] refl refl (λ l. (refl, refl)))
