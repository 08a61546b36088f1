-- ===== src/Rpc/Link/Books.antt =====
-- Every call is answered once: the books of the client's end of a link.
use mathlib.Core.Path.{subst}
use lotus_dashboard.Common.{
  ℕ, ◌+◌, ◌≡◌, ◌≤◌, ◌<◌, ◌^◌, inl, inr, refl, sym, ap, ◌∙◌, List, [], ◌∷◌, Bool, ltb, true, false,
  some, ok, arith, Bool-cases, nat_eq, nat_beq, nat_beq_iff, if◌then◌else◌,
}
use lotus_dashboard.Common.Int.{int_beq, int_beq_iff}
use lotus_dashboard.Rpc.Handler.{Reflect, Handlers}
use lotus_dashboard.Rpc.Handler.Span.{Tracing}
use lotus_dashboard.Rpc.Websocket.{Json, ClientRequest, WsConn}
use lotus_dashboard.Rpc.Websocket.Closing.{replies-eq-asked}
use lotus_dashboard.Rpc.Websocket.Loop.{
  Event, requested, received, incoming_closed, stopped, returning, loop_step, cleanup, Runs, start,
  turn, connect,
}
use lotus_dashboard.Rpc.Websocket.Replies.{waits, due, replies}
use lotus_dashboard.Rpc.Websocket.Routing.{Among, first, later}
use lotus_dashboard.Rpc.Websocket.Settled.{asked, asks, IsFresh, IsIssued, Runs-Account}
use lotus_dashboard.Rpc.Client.{ClientSide}
use lotus_dashboard.Rpc.Link.{
  Call, Picks, here, there, Link, opened, request_of, Step, makes, takes, cancels, comes, serves,
  tells, Reach, begin, next,
}
use lotus_dashboard.Rpc.Link.Linear.{Step-made}
use lotus_dashboard.Rpc.Link.Messages.{Among-cases, not-Among-nil}
use lotus_dashboard.Rpc.Link.Ids.{id_of, asked-id, id_of-distinct}
use lotus_dashboard.Rpc.Link.Sources.{Picks-Among, Picks-rest, IsRequest}

-- How many requests wait for the client's loop whose answer goes to the channel.
abbrev pub pending : {V : Type 0} → ℕ → List (ClientRequest V) → ℕ
pending ch [] = 0
pending ch (r ∷ rs) = waits ch r + pending ch rs

pending-Picks :
    {V : Type 0} (ch : ℕ) {r : ClientRequest V} {rs rest : List (ClientRequest V)}
    → Picks r rs rest
    → pending ch rs ≡ waits ch r + pending ch rest
pending-Picks ch here = refl
pending-Picks ch (there p) = omega (arith, pending-Picks ch p)

abbrev one_below : ℕ → ℕ → ℕ
one_below made n = if ltb n made then 1 else 0

module _ {V : Type 0} (cs : ClientSide V) (calls : ℕ → Call V) (bound : ℕ)
    (small : bound < 2 ^ 64) where
  waits-request_of : (n m : ℕ) → waits n (request_of cs calls m) ≡ (if nat_beq m n then 1 else 0)
  unfolding request_of
  waits-request_of n m = refl

  waits-IsRequest :
      (n m : ℕ) (r : ClientRequest V)
      → r ≡ request_of cs calls m
      → waits n r ≡ (if nat_beq m n then 1 else 0)
  waits-IsRequest n m r is = ap (waits n) is ∙ waits-request_of n m

  request-id :
      (m : ℕ) (r : ClientRequest V) → r ≡ request_of cs calls m → r.req.id ≡ some (id_of cs calls m)
  request-id m r is = ap (λ q. q.req.id) is ∙ asked-id cs calls m

  other-id :
      (n m : ℕ)
      → n < bound
      → m < bound
      → nat_beq m n ≡ false
      → int_beq (id_of cs calls n) (id_of cs calls m) ≡ false
  other-id n m hn hm ne = elim (Bool-cases (int_beq (id_of cs calls n) (id_of cs calls m))) [
    | inl hit ↦
        let same : n ≡ m =
          id_of-distinct cs calls bound n m small hn hm ((int_beq_iff _ _).0 hit) in
        absurd (ground (arith, nat_beq_iff m n))
    | inr miss ↦ miss
  ]

  abbrev AllRequests : List (Event V) → Type 0
  AllRequests es =
      (r : ClientRequest V) (w : Bool) → Among (requested r w) es → IsRequest cs calls bound r

  -- An id that was asked for is that of a call that was counted.
  asks-asked :
      (n : ℕ) (es : List (Event V))
      → n < bound
      → AllRequests es
      → asks (id_of cs calls n) es ≡ true
      → 1 ≤ asked n es
  asks-asked n [] h all e = absurd (ground arith)
  asks-asked n (requested r w ∷ es) h all e =
      let (m, below, is) = all r w first in
      elim (Bool-cases (nat_beq m n)) [
        | inl own ↦
            let here' : waits n r ≡ 1 = waits-IsRequest n m r is ∙ (rw own refl) in
            omega (arith, here')
        | inr miss ↦
            let elsewhere : asks (id_of cs calls n) es ≡ true =
              ground (arith, request-id m r is, other-id n m h below miss) in
            let rest = asks-asked n es h (λ r' w' i. all r' w' (later i)) elsewhere in
            omega (arith, rest)
      ]
  asks-asked n (received f ∷ es) h all e = asks-asked n es h (λ r w m. all r w (later m)) e
  asks-asked n (incoming_closed ∷ es) h all e = asks-asked n es h (λ r w m. all r w (later m)) e
  asks-asked n (stopped w ∷ es) h all e = asks-asked n es h (λ r w m. all r w (later m)) e

module _ (go : Reflect) (cs : ClientSide go.Value) (js : Json go.Value) (tr : Tracing)
    (hs : Handlers go) (calls : ℕ → Call go.Value) where
  open go use {Value}

  module _ (bound : ℕ) (small : bound < 2 ^ 64) where
    -- Each call that has been made is once among what waits or what the loop has taken.
    record Booked (s : Link Value) : Type 0 where
      waiting : (r : ClientRequest Value) → Among r s.waiting → IsRequest cs calls bound r
      happened : List (Event Value)
      runs : Runs js connect happened s.client
      taken : AllRequests cs calls bound small happened
      issued : IsIssued happened
      counted : (n : ℕ) → pending n s.waiting + asked n happened ≡ one_below s.made n

    one_below-le : (m n : ℕ) → one_below m n ≤ 1
    one_below-le m n = ground arith

    takes-issued :
        {s : Link Value} (o : Booked s) (r : ClientRequest Value)
        (rest : List (ClientRequest Value))
        → Picks r s.waiting rest
        → IsIssued (requested r true ∷ o.happened)
    unfolding request_of
    takes-issued {s} o r rest p =
        let (m, below, is) = o.waiting r (Picks-Among p) in
        let i = request-id cs calls bound small m r is in
        let own : waits m r ≡ 1 =
          waits-IsRequest cs calls bound small m m r is ∙ (rw ((nat_beq_iff m m).1 refl) refl) in
        let fresh : asks (id_of cs calls m) o.happened ≡ false =
          elim (Bool-cases (asks (id_of cs calls m) o.happened)) [
            | inl old ↦ absurd (
                omega (
                  arith,
                  own,
                  pending-Picks m p,
                  o.counted m,
                  one_below-le s.made m,
                  asks-asked cs calls bound small m o.happened below o.taken old,
                ))
            | inr new ↦ new
          ] in
        (
          λ none_ready.
              let ready : r.ready ≡ some m = ap (λ q. q.ready) is in absurd (ground arith),
          subst (λ x. IsFresh x o.happened) (sym i) fresh,
          o.issued,
        )

    Step-Booked :
        {s t : Link Value} → Step go cs js tr hs calls s t → t.made ≤ bound → Booked s → Booked t
    Step-Booked {s} makes h o = record {
      waiting =
          λ r m. elim (Among-cases _ _ m) [ inl e ↦ (s.made, h, e) | inr m' ↦ o.waiting r m' ];
      happened = o.happened;
      runs = o.runs;
      taken = o.taken;
      issued = o.issued;
      counted = λ n. ground (arith, o.counted n, waits-request_of cs calls bound small n s.made);
    }
    Step-Booked {s} (takes r rest c p e) h o = record {
      waiting = λ r' m. o.waiting r' (Picks-rest p m);
      happened = requested r true ∷ o.happened;
      runs = turn (requested r true) o.runs e;
      taken = λ r' w m. elim (Among-cases _ _ m) [
        | inl e' ↦ subst (IsRequest cs calls bound) (ground arith) (o.waiting r (Picks-Among p))
        | inr m' ↦ o.taken r' w m'
      ];
      issued = takes-issued o r rest p;
      counted = λ n. omega (arith, o.counted n, pending-Picks n p);
    }
    Step-Booked (cancels id) h o = record {
      waiting = o.waiting;
      happened = o.happened;
      runs = o.runs;
      taken = o.taken;
      issued = o.issued;
      counted = o.counted;
    }
    Step-Booked (comes f rest c p e) h o = record {
      waiting = o.waiting;
      happened = o.happened;
      runs = o.runs;
      taken = o.taken;
      issued = o.issued;
      counted = o.counted;
    }
    Step-Booked (serves ctx req id a fresh i ended) h o = record {
      waiting = o.waiting;
      happened = o.happened;
      runs = o.runs;
      taken = o.taken;
      issued = o.issued;
      counted = o.counted;
    }
    Step-Booked (tells f i) h o = record {
      waiting = o.waiting;
      happened = o.happened;
      runs = o.runs;
      taken = o.taken;
      issued = o.issued;
      counted = o.counted;
    }
    Step-Booked (Step.answers f rest c p e) h o = record {
      waiting = o.waiting;
      happened = received (some f) ∷ o.happened;
      runs = turn (received (some f)) o.runs e;
      taken = λ r w m. elim (Among-cases _ _ m) [
        | inl e' ↦ absurd (ground arith)
        | inr m' ↦ o.taken r w m'
      ];
      issued = o.issued;
      counted = o.counted;
    }

    Reach-Booked :
        {s : Link Value} → Reach go cs js tr hs calls opened s → s.made ≤ bound → Booked s
    unfolding opened connect
    Reach-Booked begin h = record {
      waiting = λ r m. absurd (not-Among-nil m);
      happened = [];
      runs = start;
      taken = λ r w m. absurd (not-Among-nil m);
      issued = tt;
      counted = λ n. ground arith;
    }
    Reach-Booked (next {t} {u} r st) h =
        let before : t.made ≤ u.made = Step-made go cs js tr hs calls st in
        Step-Booked st h (Reach-Booked r (omega arith))

  -- Every call is answered once. In every state that a client and a server reach over one
  -- connection, with fewer than 2^64 calls made and whatever is under way: each call that has been
  -- made either waits for the client's loop, or has been answered, or is in flight, once in all;
  -- and when the loop returns, by whatever event, what it defers runs to its end, and then each
  -- call that has been made and does not wait has been answered once on its channel, and none more
  -- often.
  pub replies-eq-one :
      (s : Link Value) (ev : Event Value) (d : WsConn Value) (n : ℕ)
      → Reach go cs js tr hs calls opened s
      → s.made < 2 ^ 64
      → loop_step js s.client ev ≡ ok (returning d)
      → n < s.made
      → (pending n s.waiting + due n s.client ≡ 1)
        × ((x : WsConn Value) × (cleanup d ≡ ok x)
            × (pending n s.waiting + replies n x.effects ≡ 1))
  replies-eq-one s ev d n r small e h =
      let o = Reach-Booked s.made small r (omega arith) in
      let one : pending n s.waiting + asked n o.happened ≡ 1 = ground (arith, o.counted n) in
      let account = Runs-Account js o.runs o.issued in
      let (x, p, q) = replies-eq-asked js o.happened ev s.client d o.runs o.issued e in
      (omega (arith, account.balance n), (x, p, omega (arith, q n)))
