-- ===== src/Rpc/Link/Linear.antt =====
-- Calls that are under way together return what they return one after the other.
use mathlib.Core.Path.{subst}
use lotus_dashboard.Common.{ℕ, ◌≡◌, ◌≤◌, ◌<◌, ◌^◌, refl, sym, ap, ◌∙◌, List, [], ◌∷◌, All, arith}
use lotus_dashboard.Common.Int.{ℤ, pos, int64_succ}
use lotus_dashboard.Rpc.Message.{Response, Frame, ClientResponse}
use lotus_dashboard.Rpc.Handler.{Reflect, Handlers}
use lotus_dashboard.Rpc.Handler.Answers.{ReturnsOutputs}
use lotus_dashboard.Rpc.Handler.Span.{Tracing}
use lotus_dashboard.Rpc.Handler.Tables.{IsTable}
use lotus_dashboard.Rpc.Websocket.{Json, WsConn}
use lotus_dashboard.Rpc.Websocket.Loop.{Event, connect, start}
use lotus_dashboard.Rpc.Websocket.Routing.{answers, AllRouted, IsRouted}
use lotus_dashboard.Rpc.Websocket.Routing.Turns.{answers-AllRouted}
use lotus_dashboard.Rpc.Client.{
  ClientSide, RpcFunc, answered, make_request, dereference, finish_call,
}
use lotus_dashboard.Rpc.Client.Ids.{counter}
use lotus_dashboard.Rpc.RoundTrip.Calls.{remote_call, remote_call_lem, reaching}
use lotus_dashboard.Rpc.Link.{
  Call, Link, opened, request_of, makes, takes, cancels, comes, serves, tells, Step, Reach, begin,
  next,
}
use lotus_dashboard.Rpc.Link.Messages.{not-Among-nil}
use lotus_dashboard.Rpc.Link.Sources.{asked, asked-distinct, Answer, Sourced}
use lotus_dashboard.Rpc.Link.Sourcing.{Step-Sourced}

module _ (go : Reflect) (cs : ClientSide go.Value) (js : Json go.Value) (tr : Tracing)
    (hs : Handlers go) (calls : ℕ → Call go.Value) where
  open go use {Value}

  pub Step-made : {s t : Link Value} → Step go cs js tr hs calls s t → s.made ≤ t.made
  Step-made makes = omega arith
  Step-made (takes r rest c p e) = omega arith
  Step-made (cancels id) = omega arith
  Step-made (comes f rest c p e) = omega arith
  Step-made (serves ctx req id a fresh i ended) = omega arith
  Step-made (tells f i) = omega arith
  Step-made (Step.answers f rest c p e) = omega arith

  -- The call with the number has been made, and its function returns for the answer what it returns
  -- when it is called alone, with some context and some ids for output channels.
  pub record IsAlone (s : Link Value) (n : ℕ) (x : ClientResponse) : Type 0 where
    pub is_made : n < s.made
    pub ctx : ℕ
    pub ch_out : Value → Value
    pub same :
        (loop : ℤ) (chan : Value) (c : WsConn Value)
        → finish_call cs (calls n).fn (int64_succ (counter n)) loop chan (answered x)
          ≡ remote_call go cs js hs ctx ch_out
              (calls n).fn
              (counter n)
              (calls n).span
              (calls n).args
              chan
              c

  module _ (returns_outputs : ReturnsOutputs go) (table : IsTable go hs) where
    opened-Sourced : (bound : ℕ) → Sourced go cs js hs calls bound opened
    unfolding opened connect
    opened-Sourced bound = record {
      waiting = λ r m. absurd (not-Among-nil m);
      requests = λ f m. absurd (not-Among-nil m);
      started = λ ctx req m. absurd (not-Among-nil m);
      responses = λ f m. absurd (not-Among-nil m);
      happened = [];
      runs = start;
      requested = λ r w m. absurd (not-Among-nil m);
      received = λ f m. absurd (not-Among-nil m);
    }

    pub Reach-Sourced :
        (bound : ℕ) {s : Link Value}
        → Reach go cs js tr hs calls opened s
        → s.made ≤ bound
        → Sourced go cs js hs calls bound s
    Reach-Sourced bound begin h = opened-Sourced bound
    Reach-Sourced bound (next {t} {u} r st) h =
        let before : t.made ≤ u.made = Step-made st in
        Step-Sourced go cs js tr hs calls returns_outputs table bound st h
          (Reach-Sourced bound r (omega arith))

    -- Which loop variable there is does not matter for an answer with an id of its own.
    finish_call-reaching :
        (fn : RpcFunc) (id loop loop' : ℤ) (chan : Value) (r : Response Value)
        → finish_call cs fn id loop chan (answered (reaching go cs js r))
          ≡ finish_call cs fn id loop' chan (answered (reaching go cs js r))
    unfolding finish_call dereference
    finish_call-reaching fn id loop loop' chan r = refl

    Answer-IsAlone :
        (n : ℕ) (x : ClientResponse) (f : Frame Value)
        → (a : Answer go cs js hs calls n f) → x ≡ reaching go cs js a.response
        → (loop : ℤ) (chan : Value) (c : WsConn Value)
        → finish_call cs (calls n).fn (int64_succ (counter n)) loop chan (answered x)
          ≡ remote_call go cs js hs a.ctx a.ch_out
              (calls n).fn
              (counter n)
              (calls n).span
              (calls n).args
              chan
              c
    unfolding request_of make_request
    Answer-IsAlone n x f a e loop chan c =
        let k = calls n in
        let r = a.response in
        ap (λ y. finish_call cs k.fn (int64_succ (counter n)) loop chan (answered y)) e
        ∙ finish_call-reaching k.fn (int64_succ (counter n)) loop (pos 0) chan r
        ∙ sym (
            remote_call_lem go cs js hs a.ctx a.ch_out k.fn (counter n) k.span k.args chan c r
              a.given (ground arith))

    routed-reaching :
        (es : List (Event Value)) (n k : ℕ) (x : ClientResponse) (i : IsRouted es k x)
        → (a : Answer go cs js hs calls n i.response) → x ≡ reaching go cs js a.response
    routed-reaching es n k x i a =
        let same : i.id ≡ a.response.id = ground (arith, i.for_it, ap (λ f. f.id) a.sent) in
        ground (
          arith,
          i.version,
          i.named,
          i.result,
          i.error,
          ap (λ f. f.jsonrpc) a.sent,
          ap (λ f. f.result) a.sent,
          ap (λ f. f.error) a.sent,
        )

    -- The answer that was routed to a call is its own.
    IsRouted-IsAlone :
        (s : Link Value) (k : ℕ) (x : ClientResponse)
        → s.made < 2 ^ 64
        → (o : Sourced go cs js hs calls s.made s) → IsRouted o.happened k x
        → IsAlone s k x
    unfolding request_of
    IsRouted-IsAlone s k x small o i =
        let (n, n_made, is) = o.requested i.request i.taken.written i.taken.among in
        let (m, m_made, a) = o.received i.response i.came i.id i.for_it in
        let n-eq-k : n ≡ k = ground arith in
        let ids : (asked cs calls n).id ≡ (asked cs calls m).id =
          ap (λ q. q.req.id) (sym is)
          ∙ i.taken.same_id
          ∙ sym i.for_it
          ∙ ap (λ f. f.id) a.sent
          ∙ sym a.same_id in
        let same : m ≡ k =
          sym (asked-distinct cs calls n m (omega arith) (omega arith) ids) ∙ n-eq-k in
        let a' : Answer go cs js hs calls k i.response =
          subst (λ j. Answer go cs js hs calls j i.response) same a in
        record {
          is_made = subst (λ j. j < s.made) n-eq-k n_made;
          ctx = a'.ctx;
          ch_out = a'.ch_out;
          same = Answer-IsAlone k x i.response a' (routed-reaching o.happened k k x i a');
        }

    AllRouted-IsAlone :
        (s : Link Value) (as' : List (ℕ × ClientResponse))
        → s.made < 2 ^ 64
        → (o : Sourced go cs js hs calls s.made s) → AllRouted o.happened as'
        → All (λ a. IsAlone s a.0 a.1) as'
    AllRouted-IsAlone s [] small o a = tt
    AllRouted-IsAlone s ((k, x) ∷ as') small o (a, rest) =
        (IsRouted-IsAlone s k x small o a, AllRouted-IsAlone s as' small o rest)

    -- Calls that are under way together do not disturb each other. If calls through reflect return
    -- as many results as their functions have outputs, and the table's entries are well-formed: in
    -- every state that a client and a server reach over one connection, with fewer than 2^64 calls
    -- made, whatever the order in which requests are taken, received, handled and answered: each
    -- answer that the client's loop has handed out has gone to the channel of a call that has been
    -- made, and the call's function returns from it what it returns when it is called alone, on any
    -- connection, with some context and some ids for output channels.
    pub answers-remote_call :
        (s : Link Value)
        → Reach go cs js tr hs calls opened s
        → s.made < 2 ^ 64
        → All (λ a. IsAlone s a.0 a.1) (answers s.client.effects)
    answers-remote_call s r small =
        let o = Reach-Sourced s.made r (omega arith) in
        AllRouted-IsAlone s (answers s.client.effects) small o
          (answers-AllRouted js o.happened s.client o.runs)
