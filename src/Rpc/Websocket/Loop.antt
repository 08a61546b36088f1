-- ===== src/Rpc/Websocket/Loop.antt =====
-- websocket.go `handleWsConn`: the loop over incoming messages, requests and the stop signal, and
-- what it defers; `nextMessage`, which feeds it.
use lotus_dashboard.Common.{
  ℕ, ◌≡◌, List, [], ◌∷◌, Bool, Option, none, some, Result, ok, fault, ◌>>=◌, or_fault,
  nil_dereference, send_on_closed, blocked, if◌then◌else◌,
}
use lotus_dashboard.Common.Int.{ℤ, pos, int_eq}
use lotus_dashboard.Common.Dict.{Dict, insert}
use lotus_dashboard.Rpc.Message.{Frame, loop_variable, ClientResponse}
use lotus_dashboard.Rpc.Websocket.{
  Json, ClientRequest, WsConn, wrote_close, replied, cancelled, started, next_message,
  closed_exiting, closed_register, emit, send_request, handle_frame,
}

-- What `NextReader` gives.
pub data NextReader : Type 0 where
  read_error text_or_binary other_type : NextReader

-- How `nextMessage` ends: the channel `incoming` is closed, or gets the reader.
pub data Delivery : Type 0 where
  closes delivers : Delivery

-- `nextMessage`. Behind an unsupported message type it goes on, and sends on the closed channel.
unfoldable pub next_reader : NextReader → Result Delivery
next_reader NextReader.read_error = ok Delivery.closes
next_reader NextReader.other_type = fault send_on_closed
next_reader NextReader.text_or_binary = ok Delivery.delivers

-- What the `select` of the loop receives: a reader, with the frame if it decodes; the close of
-- `incoming`; a request, with whether it can be written; the stop signal, with whether the close
-- message can be written.
pub data Event (V : Type 0) : Type 0 where
  received : Option (Frame V) → Event V
  incoming_closed : Event V
  requested : ClientRequest V → Bool → Event V
  stopped : Bool → Event V

-- Whether the loop goes on or returns.
pub data Loop (V : Type 0) : Type 0 where
  running returning : WsConn V → Loop V

-- The `requests` case. The test is of the address `&req.req.ID`, which is never nil, so a request
-- without an id is dereferenced.
unfoldable pub take_request : {V : Type 0} → ClientRequest V → Bool → WsConn V → Result (WsConn V)
unfolding send_request
take_request r written c = do
  id ← or_fault nil_dereference r.req.id
  send_request written r.req (record c { inflight = insert id r c.inflight })

module _ {V : Type 0} (js : Json V) where
  -- One turn of the loop.
  unfoldable pub loop_step : WsConn V → Event V → Result (Loop V)
  loop_step c (received none) = ok (returning c)
  loop_step c (received (some f)) = do
    c' ← handle_frame js f c
    ok (running (emit (started next_message) c'))
  loop_step c incoming_closed = ok (returning c)
  loop_step c (requested r written) = do c' ← take_request r written c; ok (running c')
  loop_step c (stopped written) = ok (returning (if written then emit wrote_close c else c))

  -- The turns of the loop until now.
  pub data Runs (c : WsConn V) : List (Event V) → WsConn V → Type 0 where
    start : Runs c [] c
    turn :
        {es : List (Event V)} {d e : WsConn V} (ev : Event V)
        → Runs c es d
        → loop_step d ev ≡ ok (running e)
        → Runs c (ev ∷ es) e

-- The response that ends a request when the connection closes. Its id is a pointer to the loop
-- variable.
abbrev pub closed_response : ClientResponse
closed_response = record {
  jsonrpc = "2.0";
  result = none;
  id = loop_variable;
  error = some (record { code = pos 0; message = "handler: websocket connection closed" });
}

-- `cancel()` for each call that is being handled.
unfoldable pub cancel_all : {V : Type 0} → Dict ℤ ℕ → WsConn V → WsConn V
cancel_all [] c = c
cancel_all ((id, ctx) ∷ d) c = cancel_all d (emit (cancelled ctx) c)

-- The deferred loop over `inflight`: each request is answered, and each time every call is
-- cancelled. A map is gone through in no certain order: here in the order of its entries.
unfoldable pub close_all : {V : Type 0} → Dict ℤ (ClientRequest V) → WsConn V → Result (WsConn V)
unfolding cancel_all
close_all [] c = ok c
close_all ((id, r) ∷ d) c = do
  ready ← or_fault blocked r.ready
  close_all d (cancel_all c.handling (emit (replied ready closed_response) c))

-- What `handleWsConn` defers, last first.
unfoldable pub cleanup : {V : Type 0} → WsConn V → Result (WsConn V)
unfolding close_all
cleanup c = do c' ← close_all c.inflight c; ok (emit closed_register (emit closed_exiting c'))

-- The state that `handleWsConn` starts from: the maps are made, and `nextMessage` is started.
unfoldable pub connect : {V : Type 0} → WsConn V
connect = record {
  inflight = [];
  chan_handlers = [];
  handling = [];
  next_ctx = 1;
  chan_ctr = 0;
  spawned = Bool.false;
  registrations = [];
  effects = started next_message ∷ [];
}
