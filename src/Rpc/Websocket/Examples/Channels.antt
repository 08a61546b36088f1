-- ===== src/Rpc/Websocket/Examples/Channels.antt =====
-- A client whose call is answered by the first output channel of the server, on concrete inputs.
use lotus_dashboard.Common.{ℕ, ◌≡◌, refl, List, [], ◌∷◌, true, false, none, some, ok, arith, sym}
use mathlib.Core.Path.{subst}
use lotus_dashboard.Common.Int.{pos}
use lotus_dashboard.Rpc.Message.{Bytes, Frame, own, ch_value}
use lotus_dashboard.Rpc.Websocket.{
  ClientRequest, WsConn, wrote, started, next_message, watch_context, replied, emit,
  handle_chan_out, handle_frame, handle_response, respond_to, reply,
}
use lotus_dashboard.Rpc.Websocket.Loop.{
  Event, received, requested, running, take_request, loop_step, Runs, start, turn, connect,
}
use lotus_dashboard.Rpc.Websocket.OutChans.{gives, sends, value_notice, out_step}
use lotus_dashboard.Rpc.Websocket.OutTable.{table_of}
use lotus_dashboard.Rpc.Websocket.OutIds.{opened}
use lotus_dashboard.Rpc.Websocket.Unheard.{Issued, NamesIssued, loop_step-out_step}
use lotus_dashboard.Rpc.Websocket.Examples.{numbers, request, frame, one_byte}

-- A call with a receiver for a remote channel.
abbrev subscription : ClientRequest ℕ
subscription = record {
  req = request (some (pos 1)) "Filecoin.ChainNotify";
  ready = some 5;
  ret_ch = some (record { ctx = some 3; receiver = 8 });
}

abbrev answer : Frame ℕ
answer = record {
  jsonrpc = "2.0";
  id = some (pos 1);
  meta = none;
  method = "";
  params = [];
  result = some (1 ∷ []);
  error = none;
}

abbrev subscribing : List (Event ℕ)
subscribing = received (some answer) ∷ requested subscription true ∷ []

abbrev subscribed_conn : WsConn ℕ
subscribed_conn = record {
  inflight = [];
  chan_handlers = (1, record { ctx = some 3; receiver = 8 }) ∷ [];
  handling = [];
  next_ctx = 1;
  chan_ctr = 0;
  spawned = false;
  registrations = [];
  effects =
      started next_message
      ∷ replied 5
          (record { jsonrpc = "2.0"; result = some (1 ∷ []); id = own (pos 1); error = none })
      ∷ started (watch_context 3 (pos 1))
      ∷ wrote (request (some (pos 1)) "Filecoin.ChainNotify")
      ∷ started next_message
      ∷ [];
}

subscribing-Runs : Runs numbers connect subscribing subscribed_conn
unfolding loop_step take_request connect handle_frame handle_response respond_to reply
subscribing-Runs = turn _ (turn _ start refl) refl

-- The server's first output channel.
one-Issued : Issued numbers 1
unfolding handle_chan_out connect
one-Issued = (0, _, _, _, 10, opened, omega arith, refl)

number_of_answer : (res : Bytes) (k : ℕ) → some (1 ∷ []) ≡ some res → one_byte res ≡ some k → k ≡ 1
number_of_answer [] k e p = absurd (ground arith)
number_of_answer (n ∷ []) k e p = ground arith
number_of_answer (n ∷ m ∷ res) k e p = absurd (ground arith)

answer-NamesIssued : NamesIssued numbers answer
answer-NamesIssued res k m e p =
    subst (Issued numbers) (sym (number_of_answer res k e p)) one-Issued

-- What the client gets of a value.
abbrev arrived : Frame ℕ
arrived =
    frame none ch_value
      (record { bytes = []; value = none } ∷ record { bytes = []; value = none } ∷ [])

forwards :
    out_step numbers (table_of ((1, 10) ∷ [])) (gives 1 77)
    ≡ ok (sends (value_notice numbers 1 77) (table_of ((1, 10) ∷ [])))
unfolding out_step
forwards = refl

loop_step-out_step_example :
    loop_step numbers subscribed_conn (received (some arrived))
    ≡ ok (running (emit (started next_message) subscribed_conn))
loop_step-out_step_example =
    loop_step-out_step numbers subscribing subscribed_conn (table_of ((1, 10) ∷ []))
      (table_of ((1, 10) ∷ [])) (gives 1 77) (value_notice numbers 1 77) arrived refl
      subscribing-Runs (answer-NamesIssued, tt) forwards (record { method = refl; bytes = refl })
