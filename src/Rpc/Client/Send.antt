-- ===== src/Rpc/Client/Send.antt =====
-- client.go `sendRequest`: one request to the connection's loop, the wait for its answer, and the
-- cancellation when the caller's context ends.
pub mod Cancels
use lotus_dashboard.Common.{
  ℕ, String, List, [], ◌∷◌, Bool, true, false, Option, none, some, if◌then◌else◌,
}
use lotus_dashboard.Common.Int.{ℤ}
use lotus_dashboard.Rpc.Message.{Param, Request, ClientResponse, ws_cancel}
use lotus_dashboard.Rpc.Client.{RpcFunc}
use lotus_dashboard.Rpc.Websocket.{Json, Sink, ClientRequest}

-- What the `select` of the wait receives: the answer; the end of the context, with whether the
-- loop takes the cancellation or is exiting.
pub data Awaited : Type 0 where
  answer : ClientResponse → Awaited
  context_done : Bool → Awaited

-- What was handed to the loop, and the answer, if one came.
pub record Exchange (V : Type 0) : Type 0 where
  pub taken : List (ClientRequest V)
  pub got : Option ClientResponse

-- The receiver that `handleRpcCall` hands over for a function that returns a channel, with the
-- context of the call, which is nil where the function takes none.
unfoldable pub sink_of : RpcFunc → ℕ → ℕ → Option Sink
sink_of fn ctx receiver =
    if fn.ret_ch
    then some (record { ctx = if fn.has_ctx then some ctx else none; receiver = receiver })
    else none

module _ {V : Type 0} (pointer_value : Option ℤ → V) where
  -- `cancelReq`: it has no id and no channel.
  unfoldable pub cancel_request : Option ℤ → ClientRequest V
  cancel_request id = record {
    req = record {
      jsonrpc = "2.0";
      id = none;
      method = ws_cancel;
      params = record { bytes = []; value = some (pointer_value id) } ∷ [];
      meta = none;
    };
    ready = none;
    ret_ch = none;
  }

  -- The loop over the `select`. Once `ctxDone` is nil, the end of the context is not received.
  unfoldable pub await : Option ℤ → Bool → List Awaited → Exchange V
  unfolding cancel_request
  await id watching [] = record { taken = []; got = none }
  await id watching (answer r ∷ es) = record { taken = []; got = some r }
  await id true (context_done true ∷ es) =
      let rest = await id false es in
      record { taken = cancel_request id ∷ rest.taken; got = rest.got }
  await id true (context_done false ∷ es) = await id false es
  await id false (context_done t ∷ es) = await id false es

  -- `sendRequest`: `none` where the loop is exiting before it takes the request.
  unfoldable pub send_request :
      Request V → ℕ → Option Sink → Bool → Bool → List Awaited → Option (Exchange V)
  unfolding await
  send_request req ready ret_ch false watching es = none
  send_request req ready ret_ch true watching es =
      let rest = await req.id watching es in
      some (record {
        taken = record { req = req; ready = some ready; ret_ch = ret_ch } ∷ rest.taken;
        got = rest.got;
      })
