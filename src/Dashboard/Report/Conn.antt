-- ===== src/Dashboard/Report/Conn.antt =====
-- server.go `webconn`: a websocket that sends reports.
use lotus_dashboard.Common.{
  List, ◌∷◌, Bool, true, false, Option, none, some, Result, ok, fault, unlock_of_unlocked,
  nil_dereference, blocked,
}

-- What `serverMessage` finds: an error, with whether it is a normal close; a message of another
-- type; or a message.
pub data Incoming : Type 0 where
  read_error : Bool → Incoming
  other_type : Incoming
  message : Incoming

-- How `serverMessage` ends: `incoming` is closed behind an error, or gets the reader. Here the
-- error branches return.
pub data Handed : Type 0 where
  closed : Bool → Handed
  handed : Handed

unfoldable pub server_message : Incoming → Handed
server_message (read_error normal) = closed normal
server_message other_type = closed false
server_message message = handed

-- `sendRequest`: a failed write releases the lock twice.
unfoldable pub send_request : {A : Type 0} → Bool → A → List A → Result (List A)
send_request true req sent = ok (req ∷ sent)
send_request false req sent = fault unlock_of_unlocked

-- What the `select` of `handleConn` receives: the close of `incoming`, with what `serverMessage`
-- has stored in `err` (nothing, or an error, with whether it is a normal close); a reader, with
-- whether it parses, and then whether `exiting` is closed; a report, with whether it can be
-- written; the stop signal.
pub data Event (A : Type 0) : Type 0 where
  incoming_closed : Option Bool → Event A
  received : Bool → Bool → Event A
  reported : A → Bool → Event A
  stopped : Event A

-- Whether the loop goes on, with what was sent, newest first.
pub data Loop (A : Type 0) : Type 0 where
  running returned : List A → Loop A

-- One turn of `handleConn`. A message that parses is followed by a wait for the close of `exiting`,
-- with no other case in the `select`.
unfoldable pub conn_step : {A : Type 0} → Event A → List A → Result (Loop A)
unfolding send_request
conn_step (incoming_closed none) sent = fault nil_dereference
conn_step (incoming_closed (some normal)) sent = ok (returned sent)
conn_step (received false exited) sent = ok (returned sent)
conn_step (received true false) sent = fault blocked
conn_step (received true true) sent = ok (running sent)
conn_step (reported r written) sent = elim (send_request written r sent) [
  | ok s ↦ ok (running s)
  | fault e ↦ fault e
]
conn_step stopped sent = ok (returned sent)
