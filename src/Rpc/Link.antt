-- ===== src/Rpc/Link.antt =====
-- A client and a server at the two ends of a websocket, with any number of calls under way at a
-- time: handleRpcCall and sendRequest of client.go, the loops of websocket.go at both ends, and a
-- goroutine of handler.go's `handle` for each call. What is on its way may be overtaken, which
-- allows more than the websocket does, and a handler with what it writes is one step, in which it
-- never waits for the lock or the channel of Writers: the steps say what cannot happen, not what
-- comes to happen. No context of a caller ends here: the request to cancel that follows has no id,
-- and stops the loop of the client.
pub mod Messages
pub mod Sources
pub mod Sourcing
pub mod Ids
pub mod Linear
pub mod Books
pub mod Answering
mod Examples
use lotus_dashboard.Common.{
  ℕ, suc, ◌≡◌, ◌++◌, List, [], ◌∷◌, Bool, true, false, ◌||◌, Option, none, some, ok, ◌==◌, nat_eq,
  map,
}
use lotus_dashboard.Common.Int.{ℤ}
use lotus_dashboard.Rpc.Message.{Bytes, Request, Response, Frame}
use lotus_dashboard.Rpc.Handler.{
  Reflect, Handlers, Action, rejected, finished, registered, written, Outcome, handle,
}
use lotus_dashboard.Rpc.Handler.Span.{Tracing, get_span}
use lotus_dashboard.Rpc.Server.{Output, body, outputs}
use lotus_dashboard.Rpc.Websocket.{
  Json, Sink, ClientRequest, WsConn, call_done, handle_chan_out, cancel_notice,
}
use lotus_dashboard.Rpc.Websocket.Loop.{requested, received, running, loop_step, connect}
use lotus_dashboard.Rpc.Websocket.Routing.{Among}
use lotus_dashboard.Rpc.Websocket.Starting.{handlers}
use lotus_dashboard.Rpc.Client.{ClientSide, RpcFunc, make_request}
use lotus_dashboard.Rpc.Client.Ids.{counter}
use lotus_dashboard.Rpc.RoundTrip.{arriving}
use lotus_dashboard.Rpc.RoundTrip.Calls.{without_value}

-- A call of a function of the client: the function, the number of its span, its arguments, and the
-- receiver, if it returns a channel.
pub record Call (V : Type 0) : Type 0 where
  pub fn : RpcFunc
  pub span : ℕ
  pub args : List V
  pub sink : Option Sink

-- An entry, and the others.
pub data Picks {A : Type 0} (a : A) : List A → List A → Type 0 where
  here : {as' : List A} → Picks a (a ∷ as') as'
  there : {b : A} {as' rest : List A} → Picks a as' rest → Picks a (b ∷ as') (b ∷ rest)

-- A request of one end as the other end decodes it.
unfoldable pub frame_of : {V : Type 0} → Request V → Frame V
frame_of req = record {
  jsonrpc = req.jsonrpc;
  id = req.id;
  meta = req.meta;
  method = req.method;
  params = map without_value req.params;
  result = none;
  error = none;
}

-- What a response is for the other end: a frame, or a message without content, where the result
-- cannot be encoded.
unfoldable pub message_of : {V : Type 0} → (V → Option Bytes) → Response V → Option (Frame V)
message_of marshal r = elim r.result [
  | none ↦ some (arriving marshal r)
  | some v ↦ elim (marshal v) [ none ↦ none | some b ↦ some (arriving marshal r) ]
]

unfoldable pub messages :
    {V : Type 0} → (V → Option Bytes) → List (Output V) → List (Option (Frame V))
unfolding message_of
messages marshal [] = []
messages marshal (body r ∷ os) = message_of marshal r ∷ messages marshal os
messages marshal (o ∷ os) = messages marshal os

-- What an action of `handle` does to the connection of the server: `done` and `chOut`.
unfoldable pub run_actions : {V : Type 0} → Json V → ℤ → ℕ → List (Action V) → WsConn V → WsConn V
run_actions js id ctx [] c = c
run_actions js id ctx (finished keep ∷ as') c =
    run_actions js id ctx as' (call_done js id ctx keep c)
run_actions js id ctx (registered ch ∷ as') c =
    run_actions js id ctx as' (handle_chan_out js ch c).1
run_actions js id ctx (rejected code m ∷ as') c = run_actions js id ctx as' c
run_actions js id ctx (written r ∷ as') c = run_actions js id ctx as' c

abbrev pub contains : List ℕ → ℕ → Bool
contains [] n = false
contains (m ∷ ms) n = m == n || contains ms n

-- Both ends, and what is between them: `made` calls have been made; their requests wait for the
-- client's loop, or are written and on their way; a handler that is started has finished if its
-- context is among `served`; and messages of the server are on their way.
pub record Link (V : Type 0) : Type 0 where
  pub client : WsConn V
  pub server : WsConn V
  pub made : ℕ
  pub waiting : List (ClientRequest V)
  pub requests : List (Frame V)
  pub served : List ℕ
  pub responses : List (Option (Frame V))

unfoldable pub opened : {V : Type 0} → Link V
unfolding connect
opened = record {
  client = connect;
  server = connect;
  made = 0;
  waiting = [];
  requests = [];
  served = [];
  responses = [];
}

module _ {V : Type 0} (cs : ClientSide V) (calls : ℕ → Call V) where
  -- The request of the call with the number n, which has an answer channel of its own.
  unfoldable pub request_of : ℕ → ClientRequest V
  request_of n =
      let c = calls n in
      record {
        req = make_request cs c.fn (counter n) c.span c.args;
        ready = some n;
        ret_ch = c.sink;
      }

module _ (go : Reflect) (js : Json go.Value) (tr : Tracing) (hs : Handlers go) where
  open go use {Value}

  -- `handle` for a request and its context, on the connection of the server.
  unfoldable pub handled : WsConn Value → ℕ → Request Value → Outcome Value
  handled c ctx req =
      handle go hs (get_span tr ctx req).0 req (some (λ ch. (handle_chan_out js ch c).0))

module _ (go : Reflect) (cs : ClientSide go.Value) (js : Json go.Value) (tr : Tracing)
    (hs : Handlers go) (calls : ℕ → Call go.Value) where
  open go use {Value}

  pub data Step (s : Link Value) : Link Value → Type 0 where
    -- A function is called.
    makes :
        Step s (record s { made = suc s.made; waiting = request_of cs calls s.made ∷ s.waiting })
    -- The client's loop takes a request, and writes it.
    takes :
        (r : ClientRequest Value) (rest : List (ClientRequest Value)) (c : WsConn Value)
        → Picks r s.waiting rest
        → loop_step js s.client (requested r true) ≡ ok (running c)
        → Step s (record s { client = c; waiting = rest; requests = frame_of r.req ∷ s.requests })
    -- A context of the client ends that belongs to a remote channel, and the request to cancel is
    -- written.
    cancels :
        (id : ℤ) → Step s (record s { requests = frame_of (cancel_notice js id) ∷ s.requests })
    -- The server's loop receives a request.
    comes :
        (f : Frame Value) (rest : List (Frame Value)) (c : WsConn Value)
        → Picks f s.requests rest
        → loop_step js s.server (received (some f)) ≡ ok (running c)
        → Step s (record s { server = c; requests = rest })
    -- A handler that is started runs to its end.
    serves :
        (ctx : ℕ) (req : Request Value) (id : ℤ)
        → Among (ctx, req) (handlers s.server.effects)
        → contains s.served ctx ≡ false
        → req.id ≡ some id
        → (handled go js tr hs s.server ctx req).failed ≡ none
        → Step s (record s {
          server = run_actions js id ctx (handled go js tr hs s.server ctx req).actions s.server;
          served = ctx ∷ s.served;
          responses =
              messages cs.marshal (outputs false req (handled go js tr hs s.server ctx req).actions)
              ++ s.responses;
        })
    -- The server sends a message without an id, such as those of `handleOutChans`.
    tells : (f : Frame Value) → f.id ≡ none → Step s (record s { responses = some f ∷ s.responses })
    -- The client's loop receives a message.
    answers :
        (f : Frame Value) (rest : List (Option (Frame Value))) (c : WsConn Value)
        → Picks (some f) s.responses rest
        → loop_step js s.client (received (some f)) ≡ ok (running c)
        → Step s (record s { client = c; responses = rest })

  pub data Reach (s : Link Value) : Link Value → Type 0 where
    begin : Reach s s
    next : {t u : Link Value} → Reach s t → Step t u → Reach s u
