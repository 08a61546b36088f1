-- ===== src/Rpc/RoundTrip/Calls.antt =====
-- A call as one function: the request of the client, what the server sends for it, and what the
-- caller gets.
use lotus_dashboard.Common.{
  ℕ, ◌≡◌, nat_eq, ap, refl, sym, List, [], ◌∷◌, map, true, false, Option, none, some, Result, ok,
  ◌>>=◌, or_fault, blocked, arith, string_eq,
}
use lotus_dashboard.Common.Int.{ℤ, pos, int_eq, int64_succ}
use lotus_dashboard.Common.Dict.{insert, lookup-insert_self}
use lotus_dashboard.Rpc.Message.{Param, Request, Response, ClientResponse, own}
use lotus_dashboard.Rpc.Handler.{Reflect, Handlers, handle}
use lotus_dashboard.Rpc.Server.{Output, body, outputs}
use lotus_dashboard.Rpc.Websocket.{
  Json, ClientRequest, WsConn, Effect, replied, emit, wrote, send_request, handle_frame,
}
use lotus_dashboard.Rpc.Websocket.Loop.{take_request}
use lotus_dashboard.Rpc.Websocket.Dispatch.{handle_frame-reply}
use lotus_dashboard.Rpc.Client.{ClientSide, RpcFunc, Slot, make_request, answered, finish_call}
use lotus_dashboard.Rpc.RoundTrip.{arriving, bytes_of}

-- The first response that is sent.
abbrev pub first_body : {V : Type 0} → List (Output V) → Option (Response V)
first_body [] = none
first_body (body r ∷ os) = some r
first_body (o ∷ os) = first_body os

-- The newest effect, if it hands an answer on.
abbrev pub last_reply : {V : Type 0} → List (Effect V) → Option ClientResponse
last_reply (replied ready x ∷ es) = some x
last_reply es = none

abbrev pub without_value : {V : Type 0} → Param V → Param V
without_value p = record p { value = none }

pub sent-bytes :
    {V : Type 0} (ps : List (Param V))
    → map (λ p. p.bytes) (map without_value ps) ≡ map (λ p. p.bytes) ps
sent-bytes [] = refl
sent-bytes (p ∷ ps) = ap (λ bs. p.bytes ∷ bs) (sent-bytes ps)

-- A request as it is decoded: the parameters have their bytes only.
abbrev pub decoded_request : {V : Type 0} → Request V → Request V
decoded_request req = record req { params = map without_value req.params }

module _ (go : Reflect) (cs : ClientSide go.Value) (js : Json go.Value) where
  open go use {Value}

  -- The client's connection takes the request and writes it, and gets the response; channel 0 is
  -- the caller's. Without a response the caller waits for ever.
  unfoldable pub exchange :
      Request Value → Option (Response Value) → WsConn Value → Result ClientResponse
  exchange req resp c = do
    c1 ← take_request (record { req = req; ready = some 0; ret_ch = none }) true c
    r ← or_fault blocked resp
    c2 ← handle_frame js (arriving cs.marshal r) c1
    or_fault blocked (last_reply c2.effects)

  -- What the server sends over a websocket for a request, with the context that it handles it in
  -- and the ids that it gives to output channels.
  unfoldable pub server_answer :
      Handlers go → ℕ → (Value → Value) → Request Value → Option (Response Value)
  server_answer hs ctx ch_out req =
      first_body (outputs false req (handle go hs ctx req (some ch_out)).actions)

  -- A call of a function that gives no channel; `chan` is the channel that it does not give.
  unfoldable pub remote_call :
      Handlers go
      → ℕ
      → (Value → Value)
      → RpcFunc
      → ℤ
      → ℕ
      → List Value
      → Value
      → WsConn Value
      → Result (List (Slot Value))
  unfolding exchange server_answer
  remote_call hs ctx ch_out fn ctr span args chan c = do
    let req = make_request cs fn ctr span args
    x ← exchange req (server_answer hs ctx ch_out (decoded_request req)) c
    finish_call cs fn (int64_succ ctr) (pos 0) chan (answered x)

  -- What reaches the caller of a response.
  abbrev pub reaching : Response Value → ClientResponse
  reaching r = record {
    jsonrpc = r.jsonrpc;
    result = bytes_of cs.marshal r.result;
    id = own r.id;
    error = r.error;
  }

  -- The connection with the request in flight.
  abbrev taking : Request Value → ℤ → WsConn Value → WsConn Value
  taking req id c = emit (wrote req) (record c {
    inflight = insert id (record { req = req; ready = some 0; ret_ch = none }) c.inflight;
  })

  take_request_lem :
      (req : Request Value) (id : ℤ) (c : WsConn Value)
      → req.id ≡ some id
      → take_request (record { req = req; ready = some 0; ret_ch = none }) true c
        ≡ ok (taking req id c)
  unfolding take_request send_request
  take_request_lem req id c i = ground arith

  exchange_lem :
      (req : Request Value) (r : Response Value) (c : WsConn Value)
      → req.id ≡ some r.id
      → exchange req (some r) c ≡ ok (reaching r)
  unfolding exchange
  exchange_lem req r c i =
      let sent : ClientRequest Value = record { req = req; ready = some 0; ret_ch = none } in
      let (d, p, q) =
        handle_frame-reply js (arriving cs.marshal r) r.id 0 sent (taking req r.id c) refl refl
          (lookup-insert_self r.id sent c.inflight) refl refl in
      rw (take_request_lem req r.id c i, p, q) refl

  -- The caller gets what `finish_call` makes of the response.
  pub remote_call_lem :
      (hs : Handlers go) (ctx : ℕ) (ch_out : Value → Value) (fn : RpcFunc) (ctr : ℤ) (span : ℕ)
      (args : List Value) (chan : Value) (c : WsConn Value) (r : Response Value)
      → server_answer hs ctx ch_out (decoded_request (make_request cs fn ctr span args)) ≡ some r
      → r.id ≡ int64_succ ctr
      → remote_call hs ctx ch_out fn ctr span args chan c
        ≡ finish_call cs fn (int64_succ ctr) (pos 0) chan (answered (reaching r))
  unfolding remote_call make_request
  remote_call_lem hs ctx ch_out fn ctr span args chan c r s i =
      rw (s, exchange_lem (make_request cs fn ctr span args) r c (ap some (sym i))) refl
