-- ===== src/Rpc/Websocket/Examples.antt =====
-- A connection on concrete inputs: two requests, one answered by a frame and one by the close.
mod Outputs
mod Channels
use mathlib.Core.Option
use lotus_dashboard.Common.{
  ℕ, is_ok, string_eq, ◌≡◌, refl, List, [], ◌∷◌, true, false, Option, none, some, ok, fault,
  nil_dereference, arith, String, map, get_elem?,
}
use lotus_dashboard.Common.Int.{ℤ, pos}
use lotus_dashboard.Rpc.Message.{Bytes, Request, Frame, Param, own, ws_cancel, ch_value, ch_close}
use lotus_dashboard.Rpc.Websocket.{
  Json, ClientRequest, WsConn, Effect, closed_register, closed_exiting, wrote, cancelled, started,
  next_message, call_handler, replied, sank, emit, reply, respond_to, handle_response,
  cancel_notice, handle_ctx_async, cancel_ctx, handle_call, call_done, handle_frame,
  handle_chan_message, handle_chan_close,
}
use lotus_dashboard.Rpc.Websocket.Loop.{
  Event, received, incoming_closed, requested, returning, take_request, loop_step, Runs, start,
  turn, connect, cleanup,
}
use lotus_dashboard.Rpc.Websocket.Replies.{replies}
use lotus_dashboard.Rpc.Websocket.Routing.{answers, AllRouted}
use lotus_dashboard.Rpc.Websocket.Routing.Turns.{answers-AllRouted}
use lotus_dashboard.Rpc.Websocket.Settled.{asked, IsIssued}
use lotus_dashboard.Rpc.Websocket.Closing.{replies-eq-asked}
use lotus_dashboard.Rpc.Client.Closer.{live, closer, closer-returns}
use lotus_dashboard.Rpc.Websocket.OutChans.{
  OutChans, control, output, output_closed, sends, out_step,
}
use lotus_dashboard.Rpc.Websocket.Forwarding.{Removes, out_step-output_closed}
use lotus_dashboard.Rpc.Server.Session.{serve_ws, serve_ws-all_safe}

-- One byte is a number, and all else is refused.
abbrev one_byte : Bytes → Option ℕ
one_byte (n ∷ []) = some n
one_byte _ = none

abbrev one_int : Bytes → Option ℤ
one_int (n ∷ []) = some (pos n)
one_int _ = none

abbrev abs : ℤ → ℕ
abs (pos n) = n
abs _ = 0

abbrev numbers : Json ℕ
numbers = record {
  unmarshal_int64 = one_int;
  unmarshal_uint64 = one_byte;
  int64_value = abs;
  uint64_value = λ n. n;
}

abbrev request : Option ℤ → String → Request ℕ
request id m = record { jsonrpc = "2.0"; id = id; method = m; params = []; meta = none }

abbrev issued : ℤ → ℕ → ClientRequest ℕ
issued id ready = record {
  req = request (some id) "Filecoin.ID";
  ready = some ready;
  ret_ch = none;
}

abbrev frame : Option ℤ → String → List (Param ℕ) → Frame ℕ
frame id m ps = record {
  jsonrpc = "2.0";
  id = id;
  meta = none;
  method = m;
  params = ps;
  result = some (7 ∷ []);
  error = none;
}

abbrev param : ℕ → Param ℕ
param n = record { bytes = n ∷ []; value = none }

abbrev happened : List (Event ℕ)
happened =
    received (some (frame (some (pos 1)) "" []))
    ∷ requested (issued (pos 2) 6) true
    ∷ requested (issued (pos 1) 5) true
    ∷ []

-- The state behind those events: request 2 is still in flight.
abbrev then_conn : WsConn ℕ
then_conn = record {
  inflight = (pos 2, issued (pos 2) 6) ∷ [];
  chan_handlers = [];
  handling = [];
  next_ctx = 1;
  chan_ctr = 0;
  spawned = false;
  registrations = [];
  effects =
      started next_message
      ∷ replied 5
          (record { jsonrpc = "2.0"; result = some (7 ∷ []); id = own (pos 1); error = none })
      ∷ wrote (request (some (pos 2)) "Filecoin.ID")
      ∷ wrote (request (some (pos 1)) "Filecoin.ID")
      ∷ started next_message
      ∷ [];
}

happened-Runs : Runs numbers connect happened then_conn
unfolding loop_step take_request connect handle_frame handle_response respond_to reply
happened-Runs = turn _ (turn _ (turn _ start refl) refl) refl

happened-IsIssued : IsIssued happened
happened-IsIssued = ground arith

closes : loop_step numbers then_conn incoming_closed ≡ ok (returning then_conn)
unfolding loop_step
closes = refl

answers-AllRouted_example : AllRouted happened (answers then_conn.effects)
answers-AllRouted_example = answers-AllRouted numbers happened then_conn happened-Runs

-- Both requests are answered by the end.
replies-eq-asked_example :
    (x : WsConn ℕ) × (cleanup then_conn ≡ ok x)
    × ((ch : ℕ) → replies ch x.effects ≡ asked ch happened)
replies-eq-asked_example =
    replies-eq-asked numbers happened incoming_closed then_conn then_conn happened-Runs
      happened-IsIssued closes

closer-returns_example :
    (x : WsConn ℕ) × (fs : List (Effect ℕ)) × (closer numbers true (live then_conn) ≡ ok x)
    × (x.effects ≡ closed_register ∷ closed_exiting ∷ fs)
    × ((ch : ℕ) → replies ch x.effects ≡ asked ch happened)
closer-returns_example =
    closer-returns numbers happened (live then_conn) true happened-Runs happened-IsIssued

-- Three output channels with the ids 4, 5 and 6, of which the first closes.
abbrev three_outputs : OutChans ℕ
three_outputs = record {
  cases = control ∷ output 10 ∷ output 11 ∷ output 12 ∷ [];
  ids = 4 ∷ 5 ∷ 6 ∷ [];
}

out_step-output_closed_example :
    (t : OutChans ℕ) × (r : Request ℕ) × (last : ℕ) × (out_step numbers three_outputs
        (output_closed 1)
      ≡ ok (sends r t))
    × Removes 0 three_outputs t
    × (get_elem? three_outputs.ids 2 ≡ some last)
    × (r.method ≡ ch_close)
    × (map (λ p. p.value) r.params ≡ some last ∷ [])
out_step-output_closed_example =
    out_step-output_closed numbers three_outputs 0 2 refl refl (omega arith)

abbrev call_frame : Frame ℕ
call_frame = frame (some (pos 3)) "Filecoin.ID" []

-- A session with a call that has an id, and a cancellation without a parameter.
serve_ws-all_safe_example :
    Option.map is_ok (serve_ws numbers "" true (call_frame ∷ frame none ws_cancel [] ∷ [])).1
    ≡ some false
serve_ws-all_safe_example =
    serve_ws-all_safe numbers "" true (call_frame ∷ frame none ws_cancel [] ∷ [])
