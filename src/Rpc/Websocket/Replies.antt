-- ===== src/Rpc/Websocket/Replies.antt =====
-- The account of requests and replies: what one frame and one turn of the loop do to it.
use mathlib.Core.Path.{subst}
use lotus_dashboard.Common.{
  ℕ, suc, ◌+◌, ◌≡◌, ◌∙◌, refl, sym, inl, inr, List, [], ◌∷◌, Option, none, some, Result, ok, fault,
  arith, Option-cases, nat_eq, string_eq, nat_beq, if◌then◌else◌,
}
use lotus_dashboard.Common.Int.{ℤ, int_eq}
use lotus_dashboard.Common.Dict.{lookup, insert, lookup-erase}
use lotus_dashboard.Common.Unique.{IsUnique, total, erase-IsUnique, total-erase}
use lotus_dashboard.Rpc.Message.{Frame, Bytes}
use lotus_dashboard.Rpc.Websocket.{
  Json, Sink, ClientRequest, Effect, WsConn, replied, started, watch_context, reply, respond_to,
  handle_response, cancel_ctx, handle_chan_message, handle_chan_close, handle_call, handle_frame,
}

-- How often the channel was answered.
abbrev pub replies : {V : Type 0} → ℕ → List (Effect V) → ℕ
replies ch [] = 0
replies ch (replied k r ∷ es) = if nat_beq k ch then suc (replies ch es) else replies ch es
replies ch (e ∷ es) = replies ch es

-- Whether a channel is the one that a request waits at.
abbrev pub waits_at : ℕ → Option ℕ → ℕ
waits_at ch none = 0
waits_at ch (some k) = if nat_beq k ch then 1 else 0

abbrev pub waits : {V : Type 0} → ℕ → ClientRequest V → ℕ
waits ch r = waits_at ch r.ready

-- The answers that the channel has, and those that it still has to get.
abbrev pub due : {V : Type 0} → ℕ → WsConn V → ℕ
due ch c = replies ch c.effects + total (waits ch) c.inflight

-- Nothing is lost and nothing answered twice, and no request comes into flight.
pub record Keeps {V : Type 0} (c d : WsConn V) : Type 0 where
  pub unique : IsUnique d.inflight
  pub balance : (ch : ℕ) → due ch d ≡ due ch c
  pub known :
      (id : ℤ) (r : ClientRequest V) → lookup id d.inflight ≡ some r → lookup id c.inflight ≡ some r

-- The same of a step that may stop with a fault.
abbrev pub Kept : {V : Type 0} → WsConn V → Result (WsConn V) → Type 0
Kept c (ok d) = Keeps c d
Kept c (fault e) = Unit

-- A step that leaves the requests and the answers alone.
abbrev Same : {V : Type 0} → WsConn V → Result (WsConn V) → Type 0
Same c (ok d) = (d.inflight ≡ c.inflight) × ((ch : ℕ) → replies ch d.effects ≡ replies ch c.effects)
Same c (fault e) = Unit

Same-Kept :
    {V : Type 0} (c : WsConn V) (r : Result (WsConn V)) → IsUnique c.inflight → Same c r → Kept c r
Same-Kept c (ok d) u s = record {
  unique = subst IsUnique (sym s.0) u;
  balance = λ ch. ground (arith, s.1 ch);
  known = λ id r h. ground arith;
}
Same-Kept c (fault e) u s = tt

pub Keeps-Kept :
    {V : Type 0} (c d : WsConn V) (r : Result (WsConn V)) → Keeps c d → Kept d r → Kept c r
Keeps-Kept c d (ok e) k h = record {
  unique = h.unique;
  balance = λ ch. h.balance ch ∙ k.balance ch;
  known = λ id q g. k.known id q (h.known id q g);
}
Keeps-Kept c d (fault e) k h = tt

reply-Kept :
    {V : Type 0} (id : ℤ) (r : ClientRequest V) (f : Frame V) (c : WsConn V) (k : Option ℕ)
    → IsUnique c.inflight
    → lookup id c.inflight ≡ some r
    → r.ready ≡ k
    → Kept c (reply id f k c)
unfolding reply
reply-Kept id r f c none u h e = tt
reply-Kept id r f c (some k) u h e = record {
  unique = erase-IsUnique id c.inflight u;
  balance = λ ch. ground (arith, total-erase (waits ch) id r c.inflight u h);
  known = λ j q g. ground (arith, lookup-erase id j c.inflight);
}

module _ {V : Type 0} (js : Json V) where
  open js use {unmarshal_int64, unmarshal_uint64}

  cancel_ctx-Same : (f : Frame V) (c : WsConn V) → Same c (cancel_ctx js f c)
  unfolding cancel_ctx
  cancel_ctx-Same f c = ground arith

  handle_chan_message-Same : (f : Frame V) (c : WsConn V) → Same c (handle_chan_message js f c)
  unfolding handle_chan_message
  handle_chan_message-Same f c = ground arith

  handle_chan_close-Same : (f : Frame V) (c : WsConn V) → Same c (handle_chan_close js f c)
  unfolding handle_chan_close
  handle_chan_close-Same f c = ground arith

  handle_call-Same : (f : Frame V) (c : WsConn V) → Same c (handle_call js f c)
  unfolding handle_call
  handle_call-Same f c = ground arith

  respond_to-Kept :
      (id : ℤ) (r : ClientRequest V) (f : Frame V) (s : Option Sink) (b : Option Bytes)
      (c : WsConn V)
      → IsUnique c.inflight
      → lookup id c.inflight ≡ some r
      → Kept c (respond_to js id r f s b c)
  unfolding respond_to
  respond_to-Kept id r f none b c u h = reply-Kept id r f c r.ready u h refl
  respond_to-Kept id r f (some sink) none c u h = reply-Kept id r f c r.ready u h refl
  respond_to-Kept id r f (some sink) (some res) c u h = elim (Option-cases (unmarshal_uint64 res)) [
    | inl e ↦ rw (e, respond_to) (Same-Kept c (ok c) u (refl, λ ch. refl))
    | inr (ch, e) ↦ elim (Option-cases sink.ctx) [
      | inl w ↦ rw (e, respond_to) (rw w tt)
      | inr (ctx, w) ↦
          rw (e, respond_to)
            (rw w (
              Keeps-Kept c _ _
                (Same-Kept c
                  (ok (record c {
                    chan_handlers = insert ch sink c.chan_handlers;
                    effects = started (watch_context ctx id) ∷ c.effects;
                  }))
                  u (refl, λ k. refl))
                (reply-Kept id r f _ r.ready u h refl)))
    ]
  ]

  handle_response-Kept :
      (f : Frame V) (c : WsConn V) → IsUnique c.inflight → Kept c (handle_response js f c)
  unfolding handle_response
  handle_response-Kept f c u = elim (Option-cases f.id) [
    | inl e ↦ rw (e, handle_response) (Same-Kept c (ok c) u (refl, λ ch. refl))
    | inr (id, e) ↦ elim (Option-cases (lookup id c.inflight)) [
      | inl g ↦ rw (e, handle_response) (rw g (Same-Kept c (ok c) u (refl, λ ch. refl)))
      | inr (r, g) ↦ rw (e, handle_response) (rw g (respond_to-Kept id r f r.ret_ch f.result c u g))
    ]
  ]

  -- One frame.
  pub handle_frame-Kept :
      (f : Frame V) (c : WsConn V) → IsUnique c.inflight → Kept c (handle_frame js f c)
  unfolding handle_frame
  handle_frame-Kept f c u = grind (
    arith,
    handle_response-Kept f c u,
    Same-Kept,
    cancel_ctx-Same f c,
    handle_chan_message-Same f c,
    handle_chan_close-Same f c,
    handle_call-Same f c,
  )
