-- ===== src/Rpc/Link/Sourcing.antt =====
-- Every step of the link keeps the sources of what is under way.
use mathlib.Core.Path.{subst}
use lotus_dashboard.Common.{
  ℕ, ◌≡◌, ◌≤◌, inl, inr, sym, ap, ◌∙◌, ◌∷◌, true, some, false, ok, arith, >>=-step,
}
use lotus_dashboard.Common.Int.{ℤ}
use lotus_dashboard.Rpc.Message.{Request, Frame}
use lotus_dashboard.Rpc.Handler.{Reflect, Handlers}
use lotus_dashboard.Rpc.Handler.Answers.{ReturnsOutputs, handle-IsServed}
use lotus_dashboard.Rpc.Handler.Span.{Tracing, get_span}
use lotus_dashboard.Rpc.Handler.Tables.{IsTable}
use lotus_dashboard.Rpc.Server.{outputs}
use lotus_dashboard.Rpc.Websocket.{
  Json, WsConn, cancel_notice, handle_frame, started, next_message, emit, handle_chan_out,
}
use lotus_dashboard.Rpc.Websocket.Starting.{handlers, request_in, Starts, handle_frame-Starts}
use lotus_dashboard.Rpc.Websocket.Loop.{requested, received, running, loop_step, turn}
use lotus_dashboard.Rpc.Websocket.Routing.{Among}
use lotus_dashboard.Rpc.Client.{ClientSide}
use lotus_dashboard.Rpc.RoundTrip.Calls.{first_body, decoded_request, server_answer}
use lotus_dashboard.Rpc.Link.{
  Call, frame_of, Link, messages, handled, Step, makes, takes, cancels, comes, serves, tells,
  answers,
}
use lotus_dashboard.Rpc.Link.Messages.{Among-cases, messages-Says}
use lotus_dashboard.Rpc.Link.Sources.{
  Picks-Among, Picks-rest, Among-append, run_actions-handlers, asked, IsRequest, IsCallFrame,
  IsCall, Answer, IsAnswerFrame, Sourced,
}

module _ {V : Type 0} (cs : ClientSide V) (js : Json V) (calls : ℕ → Call V) (bound : ℕ) where
  pub comes-Starts :
      (f : Frame V) (c d : WsConn V)
      → loop_step js c (received (some f)) ≡ ok (running d)
      → Starts js f c (ok d)
  unfolding loop_step
  comes-Starts f c d e = >>=-step (handle_frame js f c) _ e λ x p q.
      let starts : Starts js f c (ok x) = subst (Starts js f c) p (handle_frame-Starts js f c) in
      subst (λ y. Starts js f c (ok y)) {x = emit (started next_message) x} {y = d} (ground arith)
        starts

  frame_of-request_in :
      (req : Request V) (f : Frame V) → f ≡ frame_of req → request_in f ≡ decoded_request req
  unfolding frame_of
  frame_of-request_in req f e = ap request_in e

  comes-IsCall :
      (f : Frame V) (c d : WsConn V) (ctx : ℕ) (req : Request V)
      → IsCallFrame cs calls bound f
      → ((k : ℕ) (r : Request V) → Among (k, r) (handlers c.effects) → IsCall cs calls bound r)
      → Starts js f c (ok d)
      → Among (ctx, req) (handlers d.effects)
      → IsCall cs calls bound req
  comes-IsCall f c d ctx req call old (inl (same, kept)) m =
      old ctx req (subst (Among (ctx, req)) same m)
  comes-IsCall f c d ctx req call old (inr (id, i, new, grown)) m =
      elim (Among-cases _ _ (subst (Among (ctx, req)) new m)) [
        | inl e ↦
            let (n, below, is) = call id i in
            (n, below, ap (λ p. p.1) e ∙ frame_of-request_in (asked cs calls n) f is)
        | inr m' ↦ old ctx req m'
      ]

module _ (go : Reflect) (cs : ClientSide go.Value) (js : Json go.Value) (tr : Tracing)
    (hs : Handlers go) (calls : ℕ → Call go.Value) (returns_outputs : ReturnsOutputs go)
    (table : IsTable go hs) where
  open go use {Value}

  served-Answer :
      (c : WsConn Value) (ctx : ℕ) (id : ℤ) (n : ℕ) (f : Frame Value)
      → (decoded_request (asked cs calls n)).id ≡ some id
      → Among (some f) (
          messages cs.marshal (
            outputs false
              (decoded_request (asked cs calls n))
              (handled go js tr hs c ctx (decoded_request (asked cs calls n))).actions))
      → Answer go cs js hs calls n f
  unfolding handled server_answer
  served-Answer c ctx id n f i m =
      let req = decoded_request (asked cs calls n) in
      let ctx' = (get_span tr ctx req).0 in
      let (as', keep, e, a, ended) =
        handle-IsServed go returns_outputs hs ctx' req (λ ch. (handle_chan_out js ch c).0) id table
          i in
      let (r, sent, same, is) =
        messages-Says cs.marshal req id as' keep f i a
          (subst (λ as''. Among (some f) (messages cs.marshal (outputs false req as''))) e m) in
      record {
        ctx = ctx';
        ch_out = λ ch. (handle_chan_out js ch c).0;
        response = r;
        given = ap (λ as''. first_body (outputs false req as'')) e ∙ sent;
        same_id = i ∙ ap some (sym same);
        sent = is;
      }

  module _ (bound : ℕ) where
    abbrev Ok : Link Value → Type 0
    Ok = Sourced go cs js hs calls bound

    served-IsAnswerFrame :
        (c : WsConn Value) (ctx : ℕ) (req : Request Value) (id : ℤ) (f : Frame Value)
        → req.id ≡ some id
        → IsCall cs calls bound req
        → Among
            (some f)
            (messages cs.marshal (outputs false req (handled go js tr hs c ctx req).actions))
        → IsAnswerFrame go cs js hs calls bound f
    served-IsAnswerFrame c ctx req id f i (n, below, is) m id' i' = (
      n,
      below,
      served-Answer c ctx id n f (ap (λ r. r.id) (sym is) ∙ i) (
          subst
            (λ r.
              Among (some f)
                (messages cs.marshal (outputs false r (handled go js tr hs c ctx r).actions)))
            is m),
    )

    pub Step-Sourced :
        {s t : Link Value} → Step go cs js tr hs calls s t → t.made ≤ bound → Ok s → Ok t
    unfolding frame_of cancel_notice
    Step-Sourced {s} makes h o = record {
      waiting =
          λ r m. elim (Among-cases _ _ m) [ inl e ↦ (s.made, h, e) | inr m' ↦ o.waiting r m' ];
      requests = o.requests;
      started = o.started;
      responses = o.responses;
      happened = o.happened;
      runs = o.runs;
      requested = o.requested;
      received = o.received;
    }
    Step-Sourced (takes r rest c p e) h o = record {
      waiting = λ r' m. o.waiting r' (Picks-rest p m);
      requests = λ f m id i. elim (Among-cases _ _ m) [
        | inl e' ↦
            let (n, below, is) = o.waiting r (Picks-Among p) in
            (n, below, e' ∙ ap (λ q. frame_of q.req) is)
        | inr m' ↦ o.requests f m' id i
      ];
      started = o.started;
      responses = o.responses;
      happened = requested r true ∷ o.happened;
      runs = turn (requested r true) o.runs e;
      requested = λ r' w m. elim (Among-cases _ _ m) [
        | inl e' ↦ subst (IsRequest cs calls bound) (ground arith) (o.waiting r (Picks-Among p))
        | inr m' ↦ o.requested r' w m'
      ];
      received = λ f m. elim (Among-cases _ _ m) [
        | inl e' ↦ absurd (ground arith)
        | inr m' ↦ o.received f m'
      ];
    }
    Step-Sourced (cancels id) h o = record {
      waiting = o.waiting;
      requests = λ f m id' i. elim (Among-cases _ _ m) [
        | inl e ↦ absurd (ground arith)
        | inr m' ↦ o.requests f m' id' i
      ];
      started = o.started;
      responses = o.responses;
      happened = o.happened;
      runs = o.runs;
      requested = o.requested;
      received = o.received;
    }
    Step-Sourced {s} (comes f rest c p e) h o = record {
      waiting = o.waiting;
      requests = λ f' m. o.requests f' (Picks-rest p m);
      started = λ ctx req.
          comes-IsCall cs js calls bound f s.server c ctx req (o.requests f (Picks-Among p))
            o.started (comes-Starts cs js calls bound f s.server c e);
      responses = o.responses;
      happened = o.happened;
      runs = o.runs;
      requested = o.requested;
      received = o.received;
    }
    Step-Sourced {s} (serves ctx req id a fresh i ended) h o = record {
      waiting = o.waiting;
      requests = o.requests;
      started = λ ctx' req' m.
          o.started ctx' req'
            (subst (Among (ctx', req')) (run_actions-handlers js id ctx _ s.server) m);
      responses = λ f m. elim (Among-append _ s.responses m) [
        | inl m' ↦ served-IsAnswerFrame s.server ctx req id f i (o.started ctx req a) m'
        | inr m' ↦ o.responses f m'
      ];
      happened = o.happened;
      runs = o.runs;
      requested = o.requested;
      received = o.received;
    }
    Step-Sourced (tells f i) h o = record {
      waiting = o.waiting;
      requests = o.requests;
      started = o.started;
      responses = λ f' m id i'. elim (Among-cases _ _ m) [
        | inl e ↦ absurd (ground arith)
        | inr m' ↦ o.responses f' m' id i'
      ];
      happened = o.happened;
      runs = o.runs;
      requested = o.requested;
      received = o.received;
    }
    Step-Sourced (answers f rest c p e) h o = record {
      waiting = o.waiting;
      requests = o.requests;
      started = o.started;
      responses = λ f' m. o.responses f' (Picks-rest p m);
      happened = received (some f) ∷ o.happened;
      runs = turn (received (some f)) o.runs e;
      requested = λ r w m. elim (Among-cases _ _ m) [
        | inl e' ↦ absurd (ground arith)
        | inr m' ↦ o.requested r w m'
      ];
      received = λ f' m. elim (Among-cases _ _ m) [
        | inl e' ↦
            subst (IsAnswerFrame go cs js hs calls bound) (ground arith)
              (o.responses f (Picks-Among p))
        | inr m' ↦ o.received f' m'
      ];
    }
