-- ===== src/Rpc/Link/Examples.antt =====
-- Two calls that are under way at the same time; the second is answered first.
use lotus_dashboard.Common.{
  ℕ, ◌<◌, ◌^◌, ◌+◌, ◌≡◌, refl, [], ◌∷◌, map, Option, none, some, ok, All, arith,
}
use lotus_dashboard.Common.Int.{pos, int64_succ}
use lotus_dashboard.Rpc.Message.{Bytes, Request}
use lotus_dashboard.Rpc.Util.{named, context_type, unmarshal_json}
use lotus_dashboard.Rpc.Server.{outputs}
use lotus_dashboard.Rpc.Handler.{handle}
use lotus_dashboard.Rpc.Handler.Span.{Tracing, get_span}
use lotus_dashboard.Rpc.Client.{ClientSide, make_request}
use lotus_dashboard.Rpc.Client.Returns.{with_error}
use lotus_dashboard.Rpc.Websocket.{
  Json, WsConn, handle_frame, handle_call, handle_response, call_done,
}
use lotus_dashboard.Rpc.Websocket.Loop.{connect, loop_step, take_request}
use lotus_dashboard.Rpc.Websocket.Routing.{answers, first, later}
use lotus_dashboard.Rpc.Link.{
  Call, here, there, Link, opened, request_of, frame_of, handled, run_actions, messages, makes,
  takes, comes, serves, Step, Reach, begin, next,
}
use lotus_dashboard.Rpc.RoundTrip.Examples.{
  go, table, decode_number, double-ReturnsOutputs, table-IsTable,
}
use lotus_dashboard.Rpc.Websocket.Loop.{incoming_closed, cleanup}
use lotus_dashboard.Rpc.Websocket.Replies.{due, replies}
use lotus_dashboard.Rpc.Link.Books.{pending, replies-eq-one}
use lotus_dashboard.Rpc.Link.Answering.{OneMessage, handle-messages}
use lotus_dashboard.Rpc.Link.Linear.{IsAlone, answers-remote_call}

abbrev side : ClientSide ℕ
side = record {
  zero_value = λ t. 0;
  marshal = λ n. some (n ∷ []);
  unmarshal = decode_number;
  span_binary = λ n. n ∷ [];
  base64_encode = λ b. "";
}

abbrev numbers : Json ℕ
numbers = record {
  unmarshal_int64 = λ b. none;
  unmarshal_uint64 = λ b. none;
  int64_value = λ n. 0;
  uint64_value = λ n. n;
}

abbrev tracing : Tracing
tracing = record {
  SpanContext = ℕ;
  base64_decode = λ s. none;
  base64_encode = λ b. "";
  from_binary = λ b. none;
  binary = λ n. n ∷ [];
  start_remote = λ c s sc. c;
}

-- The call with the number n doubles 10 + n.
abbrev doubling : ℕ → Call ℕ
doubling n = record {
  fn = with_error "Test" "Double" (context_type ∷ named "int" ∷ []) (named "int");
  span = 3;
  args = 5 ∷ (10 + n) ∷ [];
  sink = none;
}

-- Both calls are taken, received, and handled, the second before the first; and so are they
-- answered.
abbrev reached : (s : Link ℕ) × Reach go side numbers tracing table doubling opened s
unfolding opened connect request_of make_request loop_step take_request handle_frame handle_call
    handle_response frame_of handled get_span run_actions call_done messages handle outputs
    int64_succ unmarshal_json
reached = (
  _,
  next
      (next
        (next
          (next
            (next
              (next
                (next (next (next (next begin makes) makes) (takes _ _ _ (there here) refl))
                  (takes _ _ _ here refl))
                (comes _ _ _ (there here) refl))
              (comes _ _ _ here refl))
            (serves 2 _ (pos 2) first refl refl refl))
          (serves 1 _ (pos 1) (later first) refl refl refl))
        (Step.answers _ _ _ (there here) refl))
      (Step.answers _ _ _ here refl),
)

few : reached.0.made < 2 ^ 64
unfolding opened connect request_of make_request loop_step take_request handle_frame handle_call
    handle_response frame_of handled get_span run_actions call_done messages handle outputs
    int64_succ unmarshal_json
few = omega arith

-- The sums 22 and 20 come to the calls 1 and 0, in this order.
answers_lem :
    map {B = ℕ × Option Bytes} (λ a. (a.0, a.1.result)) (answers reached.0.client.effects)
    ≡ (0, some (20 ∷ [])) ∷ (1, some (22 ∷ [])) ∷ []
unfolding opened connect request_of make_request loop_step take_request handle_frame handle_call
    handle_response frame_of handled get_span run_actions call_done messages handle outputs
    int64_succ unmarshal_json
answers_lem = refl

answers-remote_call_example :
    All
      (λ a. IsAlone go side numbers tracing table doubling reached.0 a.0 a.1)
      (answers reached.0.client.effects)
answers-remote_call_example =
    answers-remote_call go side numbers tracing table doubling double-ReturnsOutputs table-IsTable
      reached.0 reached.1 few

-- The request of a call as the server gets it.
abbrev doubling_request : Request ℕ
doubling_request = record {
  jsonrpc = "2.0";
  id = some (pos 1);
  method = "Test.Double";
  params = record { bytes = 10 ∷ []; value = none } ∷ [];
  meta = none;
}

-- Both calls have been made, and the loop has taken the second.
abbrev half : (s : Link ℕ) × Reach go side numbers tracing table doubling opened s
unfolding opened connect request_of make_request loop_step take_request
half = (_, next (next (next begin makes) makes) (takes _ _ _ (there here) refl))

half_few : (half.0.made < 2 ^ 64) × (1 < half.0.made)
unfolding opened connect request_of make_request loop_step take_request
half_few = omega arith

replies-eq-one_example :
    (pending 1 half.0.waiting + due 1 half.0.client ≡ 1)
    × ((x : WsConn ℕ) × (cleanup half.0.client ≡ ok x)
        × (pending 1 half.0.waiting + replies 1 x.effects ≡ 1))
unfolding loop_step
replies-eq-one_example =
    replies-eq-one go side numbers tracing table doubling half.0 incoming_closed half.0.client 1
      half.1 half_few.0 refl half_few.1

handle-messages_example :
    OneMessage side.marshal doubling_request
      (pos 1)
      refl
      (handle go table 8 doubling_request (some (λ v. v))).actions
    × ((handle go table 8 doubling_request (some (λ v. v))).failed ≡ none)
handle-messages_example =
    handle-messages go side.marshal table 8 doubling_request (λ v. v) (pos 1) double-ReturnsOutputs
      table-IsTable refl
