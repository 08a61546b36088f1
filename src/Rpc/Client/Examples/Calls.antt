-- ===== src/Rpc/Client/Examples/Calls.antt =====
-- A call at the close of its connection, the ids of a client's requests, and the end of a remote
-- channel's goroutine, on concrete inputs.
use lotus_dashboard.Common.{
  ℕ, ◌≡◌, ◌≢◌, ◌≤◌, ◌++◌, refl, [], ◌∷◌, false, none, some, ok, arith, replicate,
}
use lotus_dashboard.Rpc.Client.{make_request, answered, finish_call}
use lotus_dashboard.Common.Int.{pos}
use lotus_dashboard.Rpc.Websocket.Loop.{closed_response}
use lotus_dashboard.Rpc.Client.Errors.{ErrorIs}
use lotus_dashboard.Rpc.Client.Closed.{finish_call-closed_response}
use lotus_dashboard.Rpc.Client.Ids.{counter, make_request-distinct}
use lotus_dashboard.Rpc.Client.Sink.{Buffer, new_buffer, send_chosen}
use lotus_dashboard.Rpc.Client.Sink.Order.{sink_run}
use lotus_dashboard.Rpc.Client.Sink.Drain.{sink_run-drains}
use lotus_dashboard.Rpc.Client.Examples.{side, balance, balance-IsMade, one_number, arrivals}

finish_call-closed_response_example :
    (pos 2 ≡ pos 1
      → ErrorIs
          (some 1)
          closed_response.error
          (finish_call side balance (pos 1) (pos 2) 0 (answered closed_response)))
    × (pos 2 ≢ pos 1
        → ErrorIs
            (some 1)
            none
            (finish_call side balance (pos 1) (pos 2) 0 (answered closed_response)))
finish_call-closed_response_example =
    finish_call-closed_response side balance (pos 1) (pos 2) 0 balance-IsMade

first_ids :
    (make_request side balance (counter 1) 0 []).id
    ≡ (make_request side balance (counter 1) 4 []).id
unfolding make_request
first_ids = refl

make_request-distinct_example : ◌≡◌ {A = ℕ} 1 1
make_request-distinct_example =
    make_request-distinct side balance balance 1 1 0 4 [] [] (omega arith) (omega arith) first_ids

sink_run-drains_example :
    (n : ℕ) × (d : Buffer ℕ) × (n ≤ 3)
    × (sink_run one_number (arrivals ++ replicate n send_chosen) new_buffer ≡ ok d)
    × (d.buf ≡ [])
    × (d.working ≡ false)
    × (d.delivered ≡ 1 ∷ 2 ∷ 3 ∷ [])
sink_run-drains_example = sink_run-drains one_number arrivals tt
