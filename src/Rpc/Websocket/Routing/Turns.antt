-- ===== src/Rpc/Websocket/Routing/Turns.antt =====
-- The answers over the turns of a connection's loop.
use mathlib.Core.Path.{subst}
use lotus_dashboard.Common.{
  ◌≡◌, ◌∙◌, refl, sym, ap, ◌⊎◌, inl, inr, List, ◌∷◌, Bool, true, false, none, some, ok, arith,
  Bool-cases, string_eq, nat_eq, ◌==◌, >>=-step, or_fault, nil_dereference,
}
use lotus_dashboard.Common.Int.{ℤ, int_eq, int_beq_iff}
use lotus_dashboard.Common.Dict.{lookup, insert, lookup-insert, lookup-erase}
use lotus_dashboard.Rpc.Message.{Frame}
use lotus_dashboard.Rpc.Websocket.{
  Json, ClientRequest, WsConn, started, next_message, emit, handle_frame, send_request,
}
use lotus_dashboard.Rpc.Websocket.Loop.{
  Event, received, incoming_closed, requested, stopped, running, take_request, loop_step, Runs,
  start, turn, connect,
}
use lotus_dashboard.Rpc.Websocket.Routing.{
  answers, first, Taken, AllRouted, Taken-later, AllRouted-later, Routes, Silent, Told, Speaks,
  handle_frame-Speaks,
}

module _ {V : Type 0} (js : Json V) where
  Speaks-Routes :
      (es : List (Event V)) (f : Frame V) (c d : WsConn V)
      → Routes es c
      → Silent c d ⊎ Told f c d
      → Routes (received (some f) ∷ es) d
  Speaks-Routes es f c d h (inl (same, quiet)) = record {
    flying = λ id r l.
        Taken-later (received (some f)) es id r (h.flying id r (sym (ap (lookup id) same) ∙ l));
    answered =
        subst (AllRouted (received (some f) ∷ es)) (sym quiet)
          (AllRouted-later (received (some f)) es (answers c.effects) h.answered);
  }
  Speaks-Routes es f c d h (inr t) = record {
    flying = λ id r l.
        Taken-later (received (some f)) es id r
          (h.flying id r (ground (arith, lookup-erase t.id id c.inflight, t.flying)));
    answered = subst (AllRouted (received (some f) ∷ es)) (sym t.told) (
      record {
        id = t.id;
        request = t.request;
        response = f;
        taken = Taken-later (received (some f)) es t.id t.request (h.flying t.id t.request t.found);
        channel = t.ready;
        came = first;
        for_it = t.for_it;
        version = refl;
        named = refl;
        result = refl;
        error = refl;
      },
      AllRouted-later (received (some f)) es (answers c.effects) h.answered,
    );
  }

  sent_lem :
      (r : ClientRequest V) (id : ℤ) (w : Bool) (c d : WsConn V)
      → send_request w r.req (record c { inflight = insert id r c.inflight }) ≡ ok d
      → (d.inflight ≡ insert id r c.inflight) × (answers d.effects ≡ answers c.effects)
  unfolding send_request
  sent_lem r id true c d e = ground arith
  sent_lem r id false c d e = absurd (ground arith)

  take_request-Routes :
      (es : List (Event V)) (r : ClientRequest V) (w : Bool) (c d : WsConn V)
      → Routes es c
      → take_request r w c ≡ ok d
      → Routes (requested r w ∷ es) d
  unfolding take_request
  take_request-Routes es r w c d h e = >>=-step (or_fault nil_dereference r.req.id) _ e λ id p q.
      let i : r.req.id ≡ some id = ground arith in
      let (same, quiet) = sent_lem r id w c d q in
      record {
        flying = λ j s l. elim (Bool-cases (id == j)) [
          | inl hit ↦
              let key : id ≡ j = (int_beq_iff id j).0 hit in
              let found : r ≡ s = ground (arith, lookup-insert id j r c.inflight) in
              subst (λ k. Taken (requested r w ∷ es) k s) key
                (subst (Taken (requested r w ∷ es) id) found
                  (record { written = w; among = first; same_id = i }))
          | inr miss ↦
              Taken-later (requested r w) es j s
                (h.flying j s (ground (arith, lookup-insert id j r c.inflight)))
        ];
        answered =
            subst (AllRouted (requested r w ∷ es)) (sym quiet)
              (AllRouted-later (requested r w) es (answers c.effects) h.answered);
      }

  loop_step-Routes :
      (es : List (Event V)) (c d : WsConn V) (ev : Event V)
      → Routes es c
      → loop_step js c ev ≡ ok (running d)
      → Routes (ev ∷ es) d
  unfolding loop_step
  loop_step-Routes es c d (received none) h e = absurd (ground arith)
  loop_step-Routes es c d (received (some f)) h e = >>=-step (handle_frame js f c) _ e λ x p q.
      let spoke : Speaks f c (ok x) = subst (Speaks f c) p (handle_frame-Speaks js f c) in
      let routes : Routes (received (some f) ∷ es) x = Speaks-Routes es f c x h spoke in
      subst (Routes (received (some f) ∷ es)) {x = emit (started next_message) x} (ground arith)
        (record { flying = routes.flying; answered = routes.answered })
  loop_step-Routes es c d incoming_closed h e = absurd (ground arith)
  loop_step-Routes es c d (requested r w) h e = >>=-step (take_request r w c) _ e λ x p q.
      subst (Routes (requested r w ∷ es)) (ground arith) (take_request-Routes es r w c x h p)
  loop_step-Routes es c d (stopped w) h e = absurd (ground arith)

  Runs-Routes : {es : List (Event V)} {c : WsConn V} → Runs js connect es c → Routes es c
  unfolding connect
  Runs-Routes start = record { flying = λ id r l. absurd (ground arith); answered = tt }
  Runs-Routes (turn {es} {d} {e} ev r h) = loop_step-Routes es d e ev (Runs-Routes r) h

  -- No answer goes astray. Whatever a connection has gone through, in whatever order the responses
  -- have come and whatever ids they carried: each answer that its loop has handed out is that of a
  -- response it has received, carries the version, the id, the result and the error of this
  -- response, and went to the channel of a request that it has taken under this id.
  pub answers-AllRouted :
      (es : List (Event V)) (c : WsConn V) → Runs js connect es c → AllRouted es (answers c.effects)
  answers-AllRouted es c r = (Runs-Routes r).answered
