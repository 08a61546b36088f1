-- ===== src/Rpc/Link/Sources.antt =====
-- Where what is under way between the two ends has come from.
use lotus_dashboard.Common.{
  ℕ, ◌+◌, ◌^◌, ◌≡◌, ◌<◌, ◌⊎◌, inl, inr, refl, ◌∙◌, List, [], ◌∷◌, ◌++◌, Bool, true, false,
  string_eq, some,
}
use lotus_dashboard.Common.Int.{ℤ}
use lotus_dashboard.Rpc.Message.{Request, Response, Frame}
use lotus_dashboard.Rpc.Handler.{Reflect, Handlers, Action, rejected, finished, registered, written}
use lotus_dashboard.Rpc.Websocket.{Json, ClientRequest, WsConn, call_done, handle_chan_out}
use lotus_dashboard.Rpc.Websocket.Starting.{handlers, call_done-handlers, handle_chan_out-handlers}
use lotus_dashboard.Rpc.Websocket.Loop.{Event, Runs, connect}
use lotus_dashboard.Rpc.Websocket.Routing.{Among, first, later}
use lotus_dashboard.Rpc.Client.{ClientSide}
use lotus_dashboard.Rpc.Client.Ids.{make_request-distinct}
use lotus_dashboard.Rpc.RoundTrip.{arriving}
use lotus_dashboard.Rpc.RoundTrip.Calls.{decoded_request, server_answer}
use lotus_dashboard.Rpc.Link.{Call, Picks, here, there, frame_of, Link, request_of, run_actions}

pub Picks-Among : {A : Type 0} {a : A} {as' rest : List A} → Picks a as' rest → Among a as'
Picks-Among here = first
Picks-Among (there p) = later (Picks-Among p)

pub Picks-rest :
    {A : Type 0} {a b : A} {as' rest : List A} → Picks a as' rest → Among b rest → Among b as'
Picks-rest here m = later m
Picks-rest (there p) first = first
Picks-rest (there p) (later m) = later (Picks-rest p m)

pub Picks-cases :
    {A : Type 0} {a b : A} {as' rest : List A}
    → Picks a as' rest
    → Among b as'
    → (b ≡ a) ⊎ Among b rest
Picks-cases here first = inl refl
Picks-cases here (later m) = inr m
Picks-cases (there p) first = inr first
Picks-cases (there p) (later m) = elim (Picks-cases p m) [ inl e ↦ inl e | inr n ↦ inr (later n) ]

pub Picks-of :
    {A : Type 0} {a : A} {as' : List A} → Among a as' → (rest : List A) × Picks a as' rest
Picks-of (first {as'}) = (as', here)
Picks-of (later {b} m) = let (rest, p) = Picks-of m in (b ∷ rest, there p)

pub Among-left :
    {A : Type 0} {a : A} {as' : List A} (bs : List A) → Among a as' → Among a (as' ++ bs)
Among-left bs first = first
Among-left bs (later m) = later (Among-left bs m)

pub Among-right :
    {A : Type 0} {a : A} (as' : List A) {bs : List A} → Among a bs → Among a (as' ++ bs)
Among-right [] m = m
Among-right (c ∷ as') m = later (Among-right as' m)

pub Among-append :
    {A : Type 0} {a : A} (as' bs : List A) → Among a (as' ++ bs) → Among a as' ⊎ Among a bs
Among-append [] bs m = inr m
Among-append (c ∷ as') bs first = inl first
Among-append (c ∷ as') bs (later m) = elim (Among-append as' bs m) [
  | inl n ↦ inl (later n)
  | inr n ↦ inr n
]

module _ {V : Type 0} (js : Json V) where
  pub run_actions-handlers :
      (id : ℤ) (k : ℕ) (as' : List (Action V)) (c : WsConn V)
      → handlers (run_actions js id k as' c).effects ≡ handlers c.effects
  unfolding run_actions
  run_actions-handlers id k [] c = refl
  run_actions-handlers id k (finished keep ∷ as') c =
      run_actions-handlers id k as' (call_done js id k keep c) ∙ call_done-handlers js id k keep c
  run_actions-handlers id k (registered ch ∷ as') c =
      run_actions-handlers id k as' (handle_chan_out js ch c).1 ∙ handle_chan_out-handlers js ch c
  run_actions-handlers id k (rejected code m ∷ as') c = run_actions-handlers id k as' c
  run_actions-handlers id k (written r ∷ as') c = run_actions-handlers id k as' c

  pub run_actions-next_ctx :
      (id : ℤ) (k : ℕ) (as' : List (Action V)) (c : WsConn V)
      → (run_actions js id k as' c).next_ctx ≡ c.next_ctx
  unfolding run_actions call_done handle_chan_out
  run_actions-next_ctx id k [] c = refl
  run_actions-next_ctx id k (finished true ∷ as') c = run_actions-next_ctx id k as' c
  run_actions-next_ctx id k (finished false ∷ as') c =
      run_actions-next_ctx id k as' (call_done js id k false c)
  run_actions-next_ctx id k (registered ch ∷ as') c =
      run_actions-next_ctx id k as' (handle_chan_out js ch c).1
  run_actions-next_ctx id k (rejected code m ∷ as') c = run_actions-next_ctx id k as' c
  run_actions-next_ctx id k (written r ∷ as') c = run_actions-next_ctx id k as' c

module _ {V : Type 0} (cs : ClientSide V) (calls : ℕ → Call V) where
  abbrev pub asked : ℕ → Request V
  asked n = (request_of cs calls n).req

  -- Calls with one id have one number.
  pub asked-distinct :
      (m n : ℕ) → m + 1 < 2 ^ 64 → n + 1 < 2 ^ 64 → (asked m).id ≡ (asked n).id → m ≡ n
  unfolding request_of
  asked-distinct m n hm hn e =
      make_request-distinct cs (calls m).fn (calls n).fn m n (calls m).span (calls n).span
        (calls m).args (calls n).args hm hn e

  module _ (bound : ℕ) where
    abbrev pub IsRequest : ClientRequest V → Type 0
    IsRequest r = (n : ℕ) × (n < bound) × (r ≡ request_of cs calls n)

    -- A frame with an id is the request of a call.
    abbrev pub IsCallFrame : Frame V → Type 0
    IsCallFrame f = (id : ℤ) → f.id ≡ some id → (n : ℕ) × (n < bound) × (f ≡ frame_of (asked n))

    abbrev pub IsCall : Request V → Type 0
    IsCall req = (n : ℕ) × (n < bound) × (req ≡ decoded_request (asked n))

module _ (go : Reflect) (cs : ClientSide go.Value) (js : Json go.Value) (hs : Handlers go)
    (calls : ℕ → Call go.Value) where
  open go use {Value}

  -- What the server sends for a call alone.
  pub record Answer (n : ℕ) (f : Frame Value) : Type 0 where
    pub ctx : ℕ
    pub ch_out : Value → Value
    pub response : Response Value
    pub given :
        server_answer go cs js hs ctx ch_out (decoded_request (asked cs calls n)) ≡ some response
    pub same_id : (asked cs calls n).id ≡ some response.id
    pub sent : f ≡ arriving cs.marshal response

  module _ (bound : ℕ) where
    -- A frame with an id is the answer to a call.
    abbrev pub IsAnswerFrame : Frame Value → Type 0
    IsAnswerFrame f = (id : ℤ) → f.id ≡ some id → (n : ℕ) × (n < bound) × Answer n f

    pub record Sourced (s : Link Value) : Type 0 where
      pub waiting : (r : ClientRequest Value) → Among r s.waiting → IsRequest cs calls bound r
      pub requests : (f : Frame Value) → Among f s.requests → IsCallFrame cs calls bound f
      pub started :
          (ctx : ℕ) (req : Request Value)
          → Among (ctx, req) (handlers s.server.effects)
          → IsCall cs calls bound req
      pub responses : (f : Frame Value) → Among (some f) s.responses → IsAnswerFrame f
      pub happened : List (Event Value)
      pub runs : Runs js connect happened s.client
      pub requested :
          (r : ClientRequest Value) (w : Bool)
          → Among (Event.requested r w) happened
          → IsRequest cs calls bound r
      pub received : (f : Frame Value) → Among (Event.received (some f)) happened → IsAnswerFrame f
