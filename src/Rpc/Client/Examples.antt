-- ===== src/Rpc/Client/Examples.antt =====
-- The client on concrete inputs: a function with a value and an error, and a remote channel.
mod Calls
mod Typing
use lotus_dashboard.Common.{
  ℕ, ◌≡◌, ◌≢◌, ◌⊎◌, ◌++◌, get_elem?, refl, String, List, [], ◌∷◌, true, false, Option, none, some,
  ok, fault, arith, nil_dereference, send_on_closed, close_of_closed, false,
}
use lotus_dashboard.Common.Int.{ℤ, pos}
use lotus_dashboard.Rpc.Message.{Bytes, Request, ClientResponse, own}
use lotus_dashboard.Rpc.Util.{
  GoType, FuncType, named, context_type, error_type, process_outs, process_func_out,
}
use lotus_dashboard.Rpc.Handler.{Decoded, decoded, undecodable}
use lotus_dashboard.Rpc.Websocket.{Json, ClientRequest}
use lotus_dashboard.Rpc.Websocket.Loop.{requested, loop_step, connect}
use lotus_dashboard.Rpc.Client.{
  ClientSide, func, RpcFunc, made, returns_chan, make_for, make_rpc_func, answered, finish_call,
  result_value, dereference,
}
use lotus_dashboard.Rpc.Client.Errors.{
  IsMade, make_rpc_func-IsMade, ErrorIs, other_id, finish_call-Fails,
}
use lotus_dashboard.Rpc.Client.Send.{
  answer, context_done, Exchange, cancel_request, await, send_request,
}
use lotus_dashboard.Rpc.Client.Send.Cancels.{send_request-cancels}
use lotus_dashboard.Rpc.Client.Sink.{
  Buffer, new_buffer, Happens, message, send_chosen, remote_closed, context_ended, cancel_chosen,
  sink_step,
}
use lotus_dashboard.Rpc.Client.Sink.Pending.{pending_is_lost}
use lotus_dashboard.Rpc.Client.Sink.Prefix.{Delivers, sink_run-Delivers}
use lotus_dashboard.Rpc.Client.Sink.Order.{IsQuiet, sink_run, sink_run_lem}

abbrev one_number : Bytes → Option ℕ
one_number (n ∷ []) = some n
one_number b = none

abbrev decode_number : GoType → Bytes → Decoded ℕ
decode_number t (n ∷ []) = decoded n
decode_number t b = undecodable "unexpected end of JSON input"

abbrev side : ClientSide ℕ
side = record {
  zero_value = λ t. 0;
  marshal = λ n. some (n ∷ []);
  unmarshal = decode_number;
  span_binary = λ n. n ∷ [];
  base64_encode = λ b. "";
}

abbrev balance_type : FuncType
balance_type = record {
  ins = context_type ∷ named "Address" ∷ [];
  outs = named "BigInt" ∷ error_type ∷ [];
}

abbrev balance : RpcFunc
balance = record {
  namespace = "Filecoin";
  ftyp = balance_type;
  name = "WalletBalance";
  nout = 2;
  val_out = some 0;
  err_out = some 1;
  has_ctx = true;
  ret_ch = false;
}

balance_made :
    make_rpc_func "Filecoin" (record { name = "WalletBalance"; type = func balance_type })
    ≡ ok (made balance)
unfolding make_rpc_func make_for returns_chan process_func_out process_outs
balance_made = refl

balance-IsMade : IsMade balance
balance-IsMade = record {
  count = refl;
  value_in_range = omega arith;
  error_in_range = omega arith;
  apart = ground arith;
}

-- The server says no.
abbrev refusal : ClientResponse
refusal = record {
  jsonrpc = "2.0";
  result = some (7 ∷ []);
  id = own (pos 3);
  error = some (record { code = pos 1; message = "no such actor" });
}

finish_call-Fails_example :
    ErrorIs (some 1) none (finish_call side balance (pos 4) (pos 0) 0 (answered refusal))
unfolding dereference
finish_call-Fails_example =
    finish_call-Fails side balance (pos 4) (pos 0) 0 (answered refusal) balance-IsMade
      (other_id (pos 3) refl (ground arith))

abbrev numbers : Json ℕ
numbers = record {
  unmarshal_int64 = λ b. none;
  unmarshal_uint64 = one_number;
  int64_value = λ n. 0;
  uint64_value = λ n. n;
}

abbrev pointer : Option ℤ → ℕ
pointer p = 0

abbrev balance_request : Request ℕ
balance_request = record {
  jsonrpc = "2.0";
  id = some (pos 3);
  method = "Filecoin.WalletBalance";
  params = [];
  meta = none;
}

abbrev with_cancel : Exchange ℕ
with_cancel = record {
  taken =
      record { req = balance_request; ready = some 5; ret_ch = none }
      ∷ record {
        req = record {
          jsonrpc = "2.0";
          id = none;
          method = "xrpc.cancel";
          params = record { bytes = []; value = some 0 } ∷ [];
          meta = none;
        };
        ready = none;
        ret_ch = none;
      }
      ∷ [];
  got = some refusal;
}

sends :
    send_request pointer balance_request 5 none true true (context_done true ∷ answer refusal ∷ [])
    ≡ some with_cancel
unfolding send_request await cancel_request
sends = refl

send_request-cancels_example :
    let first : ClientRequest ℕ = record { req = balance_request; ready = some 5; ret_ch = none } in
    ((with_cancel.taken ≡ first ∷ [])
      ⊎ (with_cancel.taken ≡ first ∷ cancel_request pointer (some (pos 3)) ∷ []))
    × (loop_step numbers connect (requested (cancel_request pointer (some (pos 3))) true)
        ≡ fault nil_dereference)
send_request-cancels_example =
    send_request-cancels pointer numbers balance_request 5 none true
      (context_done true ∷ answer refusal ∷ []) true connect with_cancel sends

-- Two messages, the goroutine's turn, one message that does not parse, and another.
abbrev arrivals : List Happens
arrivals = message (1 ∷ []) ∷ message (2 ∷ []) ∷ send_chosen ∷ message [] ∷ message (3 ∷ []) ∷ []

sink_run_lem_example :
    (d : Buffer ℕ) × (sink_run one_number arrivals new_buffer ≡ ok d)
    × IsQuiet d
    × (d.delivered ++ d.buf ≡ 1 ∷ 2 ∷ 3 ∷ [])
sink_run_lem_example = sink_run_lem one_number arrivals tt

-- Two messages, the end of the caller's context, which the goroutine finds behind one send, and one
-- message more.
abbrev ended_early : List Happens
ended_early =
    message (1 ∷ [])
    ∷ message (2 ∷ [])
    ∷ context_ended
    ∷ send_chosen
    ∷ cancel_chosen
    ∷ message (3 ∷ [])
    ∷ []

ended_early_lem :
    sink_run one_number ended_early new_buffer
    ≡ ok (record new_buffer { delivered = 1 ∷ []; ctx_cancelled = true; ch_cancelled = true })
unfolding sink_run sink_step
ended_early_lem = refl

sink_run-Delivers_example :
    Delivers one_number false (1 ∷ 2 ∷ 3 ∷ []) (sink_run one_number ended_early new_buffer)
sink_run-Delivers_example = sink_run-Delivers one_number ended_early

-- Two messages wait.
abbrev pending : Buffer ℕ
pending = record new_buffer { buf = 1 ∷ 2 ∷ []; working = true }

pending-IsQuiet : IsQuiet pending
pending-IsQuiet = record {
  open_channel = refl;
  live_context = refl;
  live_channel = refl;
  worker = refl;
}

pending_is_lost_example :
    ((hs : List Happens) (d : Buffer ℕ)
      → sink_run one_number (remote_closed ∷ hs) pending ≡ ok d
      → d.delivered ≡ [])
    × (sink_run one_number (remote_closed ∷ send_chosen ∷ []) pending ≡ fault send_on_closed)
    × ((d : Buffer ℕ) × (sink_run one_number (remote_closed ∷ cancel_chosen ∷ []) pending ≡ ok d)
        × (d.buf ≡ []))
pending_is_lost_example = pending_is_lost one_number pending 1 (2 ∷ []) pending-IsQuiet refl
