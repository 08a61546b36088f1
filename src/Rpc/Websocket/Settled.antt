-- ===== src/Rpc/Websocket/Settled.antt =====
-- Over a whole life of a connection, every request that its loop takes is answered once: by the
-- frame that carries its id, or when the connection closes.
use mathlib.Core.Path.{subst}
use lotus_dashboard.Common.{
  ℕ, ◌+◌, ◌≡◌, ◌≢◌, ◌∙◌, refl, inl, inr, List, [], ◌∷◌, Bool, true, false, ◌||◌, Option, none, some,
  ok, arith, Option-cases, >>=-eq-ok,
}
use lotus_dashboard.Common.Int.{ℤ, int_eq, int_beq, int_beq_iff}
use lotus_dashboard.Common.Dict.{lookup, insert, lookup-insert}
use lotus_dashboard.Common.Unique.{IsUnique, insert-IsUnique, total-insert_new}
use lotus_dashboard.Rpc.Message.{Frame}
use lotus_dashboard.Rpc.Websocket.{
  Json, wrote, ClientRequest, WsConn, started, next_message, handle_frame, emit,
}
use lotus_dashboard.Rpc.Websocket.Loop.{
  Event, received, incoming_closed, requested, stopped, running, take_request, loop_step, Runs,
  start, turn, connect,
}
use lotus_dashboard.Rpc.Websocket.Replies.{waits, due, Keeps, Kept, handle_frame-Kept}

-- How many requests the loop has taken that wait at the channel. The events are newest first.
abbrev pub asked : {V : Type 0} → ℕ → List (Event V) → ℕ
asked ch [] = 0
asked ch (requested r w ∷ es) = waits ch r + asked ch es
asked ch (e ∷ es) = asked ch es

abbrev is_id : ℤ → Option ℤ → Bool
is_id id none = false
is_id id (some j) = int_beq id j

-- Whether a request with the id was taken.
abbrev pub asks : {V : Type 0} → ℤ → List (Event V) → Bool
asks id [] = false
asks id (requested r w ∷ es) = is_id id r.req.id || asks id es
asks id (e ∷ es) = asks id es

abbrev pub IsFresh : {V : Type 0} → Option ℤ → List (Event V) → Type 0
IsFresh none es = Unit
IsFresh (some id) es = asks id es ≡ false

-- The requests as `client.sendRequest` issues them: each with a channel for the answer, and with an
-- id that no earlier one has.
abbrev pub IsIssued : {V : Type 0} → List (Event V) → Type 0
IsIssued [] = Unit
IsIssued (requested r w ∷ es) = (r.ready ≢ none) × IsFresh r.req.id es × IsIssued es
IsIssued (e ∷ es) = IsIssued es

-- The books of a running connection.
pub record Account {V : Type 0} (c : WsConn V) (es : List (Event V)) : Type 0 where
  pub unique : IsUnique c.inflight
  pub balance : (ch : ℕ) → due ch c ≡ asked ch es
  pub known :
      (id : ℤ) (r : ClientRequest V)
      → lookup id c.inflight ≡ some r
      → (asks id es ≡ true) × (r.ready ≢ none)

Keeps-Account :
    {V : Type 0} (c d : WsConn V) (es : List (Event V)) → Keeps c d → Account c es → Account d es
Keeps-Account c d es k a = record {
  unique = k.unique;
  balance = λ ch. k.balance ch ∙ a.balance ch;
  known = λ id r h. a.known id r (k.known id r h);
}

not_in_flight :
    {V : Type 0} (c : WsConn V) (es : List (Event V)) (id : ℤ)
    → Account c es
    → asks id es ≡ false
    → lookup id c.inflight ≡ none
not_in_flight c es id a fresh = elim (Option-cases (lookup id c.inflight)) [
  | inl e ↦ e
  | inr (r, e) ↦ absurd (ground (arith, a.known id r e))
]

take-Account :
    {V : Type 0} (r : ClientRequest V) (id : ℤ) (c : WsConn V) (es : List (Event V)) (w : Bool)
    → Account c es
    → r.ready ≢ none
    → r.req.id ≡ some id
    → asks id es ≡ false
    → Account
        (emit (wrote r.req) (record c { inflight = insert id r c.inflight }))
        (requested r w ∷ es)
take-Account r id c es w a ready e fresh = record {
  unique = insert-IsUnique id r c.inflight a.unique;
  balance = λ ch. ground (
    arith,
    a.balance ch,
    total-insert_new (waits ch) id r c.inflight (not_in_flight c es id a fresh),
  );
  known = λ j q h.
      ground
        (arith, lookup-insert id j r c.inflight, a.known j q, int_beq_iff id j, int_beq_iff j id);
}

take_request-Account :
    {V : Type 0} (r : ClientRequest V) (w : Bool) (c d : WsConn V) (es : List (Event V))
    → Account c es
    → IsIssued (requested r w ∷ es)
    → take_request r w c ≡ ok d
    → Account d (requested r w ∷ es)
unfolding take_request
take_request-Account r false c d es a i e = absurd (ground arith)
take_request-Account r true c d es a i e = elim (Option-cases r.req.id) [
  | inl p ↦ absurd (ground arith)
  | inr (id, p) ↦
      subst (λ x. Account x (requested r true ∷ es)) (ground arith)
        (take-Account r id c es true a i.0 p (subst (λ x. IsFresh x es) p i.1))
]

module _ {V : Type 0} (js : Json V) where
  frame-Account :
      (c d : WsConn V) (f : Frame V) (es : List (Event V))
      → Account c es
      → handle_frame js f c ≡ ok d
      → Account (emit (started next_message) d) (received (some f) ∷ es)
  frame-Account c d f es a e =
      let b = Keeps-Account c d es (subst (Kept c) e (handle_frame-Kept js f c a.unique)) a in
      record { unique = b.unique; balance = b.balance; known = b.known }

  turn-Account :
      (c d : WsConn V) (ev : Event V) (es : List (Event V))
      → Account c es
      → IsIssued (ev ∷ es)
      → loop_step js c ev ≡ ok (running d)
      → Account d (ev ∷ es)
  unfolding loop_step
  turn-Account c d (received none) es a i e = absurd (ground arith)
  turn-Account c d (received (some f)) es a i e =
      let (x, p, q) = >>=-eq-ok (handle_frame js f c) _ e in
      subst (λ y. Account y (received (some f) ∷ es)) (cc q) (frame-Account c x f es a p)
  turn-Account c d incoming_closed es a i e = absurd (ground arith)
  turn-Account c d (requested r w) es a i e =
      let (x, p, q) = >>=-eq-ok (take_request r w c) _ e in
      take_request-Account r w c d es a i (p ∙ cc q)
  turn-Account c d (stopped w) es a i e = absurd (ground arith)

  IsIssued-tail : (ev : Event V) (es : List (Event V)) → IsIssued (ev ∷ es) → IsIssued es
  IsIssued-tail (received f) es i = i
  IsIssued-tail incoming_closed es i = i
  IsIssued-tail (requested r w) es i = i.2
  IsIssued-tail (stopped w) es i = i

  connect-Account : Account (connect {V = V}) []
  unfolding connect
  connect-Account = record {
    unique = tt;
    balance = λ ch. refl;
    known = λ id r h. absurd (ground arith);
  }

  pub Runs-Account :
      {es : List (Event V)} {c : WsConn V} → Runs js connect es c → IsIssued es → Account c es
  Runs-Account start i = connect-Account
  Runs-Account (turn {es = es} {d = d} {e = e} ev r step) i =
      turn-Account d e ev es (Runs-Account r (IsIssued-tail ev es i)) i step
