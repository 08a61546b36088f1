-- ===== src/Rpc/Client/Closed.antt =====
-- What a call returns when the connection closes under it. The id of the closing response is a
-- pointer to the variable of the loop over the requests in flight (websocket.go:114).
use lotus_dashboard.Common.{◌≡◌, ◌≢◌, refl, ap, some, none, arith}
use lotus_dashboard.Common.Int.{ℤ}
use lotus_dashboard.Rpc.Websocket.Loop.{closed_response}
use lotus_dashboard.Rpc.Client.{
  ClientSide, RpcFunc, answered, dereference, finish_call, result_value,
}
use lotus_dashboard.Rpc.Client.Errors.{
  IsMade, ErrorIs, other_id, finish_call-ErrorIs, finish_call-Fails,
}

module _ {V : Type 0} (cs : ClientSide V) where
  -- When a connection closes, a call that is in flight, of a function that `makeRpcFunc` made, has
  -- in its error result, if it has one, the error of the closed connection only while the loop that
  -- closes the calls is at its id; if it reads its answer once the loop has gone on to another
  -- request, it has the nil error.
  pub finish_call-closed_response :
      (fn : RpcFunc) (id loop : ℤ) (chan : V)
      → IsMade fn
      → (loop ≡ id
          → ErrorIs fn.err_out closed_response.error
              (finish_call cs fn id loop chan (answered closed_response)))
        × (loop ≢ id
            → ErrorIs fn.err_out none (finish_call cs fn id loop chan (answered closed_response)))
  unfolding dereference result_value
  finish_call-closed_response fn id loop chan m = (
    λ e.
        finish_call-ErrorIs cs fn id loop chan closed_response m (ap some e)
          (λ i t x v o. ground arith),
    λ n. finish_call-Fails cs fn id loop chan (answered closed_response) m (other_id loop refl n),
  )
