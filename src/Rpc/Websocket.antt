-- ===== src/Rpc/Websocket.antt =====
-- websocket.go: the state of one connection, and what it does with each message and event.
mod State
pub mod Loop
pub mod Replies
pub mod Routing
pub mod Starting
pub mod Settled
pub mod Closing
pub mod OutChans
pub mod Forwarding
pub mod OutTable
pub mod OutIds
pub mod Writers
pub mod Notices
pub mod Subscribed
pub mod Unheard
pub mod Cancelling
pub mod Surviving
pub mod Dispatch
mod Examples
pub use State.*
use lotus_dashboard.Common.{
  ℕ, zero, suc, ◌+◌, ◌%◌, ◌^◌, String, List, [], ◌∷◌, Bool, true, false, Option, none, some, Fault,
  Result, ok, fault, ◌>>=◌, or_fault, index_out_of_range, nil_dereference, send_on_closed,
  unlock_of_unlocked, blocked, get_elem?, if◌then◌else◌, ◌==◌, string_eq, nat_eq,
}
use lotus_dashboard.Common.Int.{ℤ, pos, int_eq}
use lotus_dashboard.Common.Dict.{Dict, lookup, insert, erase}
use lotus_dashboard.Rpc.Message.{
  Bytes, Param, Request, Frame, RespError, IdPointer, own, loop_variable, ClientResponse, ws_cancel,
  ch_value, ch_close,
}

-- `sendRequest`. When WriteJSON fails, the lock is released there and once more behind the `if`.
unfoldable pub send_request : {V : Type 0} → Bool → Request V → WsConn V → Result (WsConn V)
send_request true req c = ok (emit (wrote req) c)
send_request false req c = fault unlock_of_unlocked

-- The end of `handleResponse`: the reply is sent, and the request is no longer in flight.
reply : {V : Type 0} → ℤ → Frame V → Option ℕ → WsConn V → Result (WsConn V)
reply id f none c = fault blocked
reply id f (some ready) c = ok (record c {
  inflight = erase id c.inflight;
  effects =
      replied ready
        (record { jsonrpc = f.jsonrpc; result = f.result; id = own id; error = f.error })
      ∷ c.effects;
})

module _ {V : Type 0} (js : Json V) where
  open js use {unmarshal_int64, unmarshal_uint64, int64_value, uint64_value}

  -- `handleResponse` from the request that is in flight. A result that should hold a channel id and
  -- does not is dropped, and the request stays in flight. `retCh` derives a context from its own,
  -- and panics where that is nil.
  respond_to :
      ℤ → ClientRequest V → Frame V → Option Sink → Option Bytes → WsConn V → Result (WsConn V)
  unfolding reply
  respond_to id r f none res c = reply id f r.ready c
  respond_to id r f (some sink) none c = reply id f r.ready c
  respond_to id r f (some sink) (some res) c = elim (unmarshal_uint64 res) [
    | none ↦ ok c
    | some ch ↦ elim sink.ctx [
      | none ↦ fault nil_dereference
      | some ctx ↦ reply id f r.ready (record c {
        chan_handlers = insert ch sink c.chan_handlers;
        effects = started (watch_context ctx id) ∷ c.effects;
      })
    ]
  ]

  unfoldable pub handle_response : Frame V → WsConn V → Result (WsConn V)
  unfolding respond_to
  handle_response f c = elim f.id [
    | none ↦ ok c
    | some id ↦ elim (lookup id c.inflight) [
      | none ↦ ok c
      | some r ↦ respond_to id r f r.ret_ch f.result c
    ]
  ]

  -- The request of `handleCtxAsync`: the id stands in the value of the parameter, and the bytes are
  -- left empty.
  unfoldable pub cancel_notice : ℤ → Request V
  cancel_notice id = record {
    jsonrpc = "2.0";
    id = none;
    method = ws_cancel;
    params = record { bytes = []; value = some (int64_value id) } ∷ [];
    meta = none;
  }

  -- `handleCtxAsync`, once the context is done.
  unfoldable pub handle_ctx_async : Bool → ℤ → WsConn V → Result (WsConn V)
  unfolding send_request cancel_notice
  handle_ctx_async written id c = send_request written (cancel_notice id) c

  -- `cancelCtx`.
  unfoldable pub cancel_ctx : Frame V → WsConn V → Result (WsConn V)
  cancel_ctx f c = do
    p ← or_fault index_out_of_range (get_elem? f.params 0)
    elim (unmarshal_int64 p.bytes) [
      | none ↦ ok c
      | some id ↦ elim (lookup id c.handling) [
        | none ↦ ok c
        | some ctx ↦ ok (emit (cancelled ctx) c)
      ]
    ]

  -- The channel id of `handleChanMessage`: 0 where the text does not parse, since the error is
  -- logged and the handler goes on.
  channel_id_or_zero : Bytes → ℕ
  channel_id_or_zero b = elim (unmarshal_uint64 b) [ none ↦ 0 | some ch ↦ ch ]

  -- `handleChanMessage`.
  unfoldable pub handle_chan_message : Frame V → WsConn V → Result (WsConn V)
  unfolding channel_id_or_zero
  handle_chan_message f c = do
    p ← or_fault index_out_of_range (get_elem? f.params 0)
    elim (lookup (channel_id_or_zero p.bytes) c.chan_handlers) [
      | none ↦ ok c
      | some hnd ↦ or_fault index_out_of_range (get_elem? f.params 1) >>= λ q.
          ok (emit (sank hnd.receiver q.bytes true) c)
    ]

  -- `handleChanClose`.
  unfoldable pub handle_chan_close : Frame V → WsConn V → Result (WsConn V)
  handle_chan_close f c = do
    p ← or_fault index_out_of_range (get_elem? f.params 0)
    elim (unmarshal_uint64 p.bytes) [
      | none ↦ ok c
      | some ch ↦ elim (lookup ch c.chan_handlers) [
        | none ↦ ok c
        | some hnd ↦ ok (record c {
          chan_handlers = erase ch c.chan_handlers;
          effects = sank hnd.receiver [] false ∷ c.effects;
        })
      ]
    ]

  -- `handleCall`. The test is of the address `&frame.ID`, which is never nil, so a call without an
  -- id is dereferenced.
  unfoldable pub handle_call : Frame V → WsConn V → Result (WsConn V)
  handle_call f c = do
    id ← or_fault nil_dereference f.id
    ok (record c {
      handling = insert id c.next_ctx c.handling;
      next_ctx = c.next_ctx + 1;
      effects =
          started (
            call_handler c.next_ctx (record {
              jsonrpc = f.jsonrpc;
              id = f.id;
              method = f.method;
              params = f.params;
              meta = f.meta;
            }))
          ∷ c.effects;
    })

  -- The `done` that `handleCall` hands to the handler, for the call's id and context.
  unfoldable pub call_done : ℤ → ℕ → Bool → WsConn V → WsConn V
  call_done id ctx true c = c
  call_done id ctx false c = record c {
    handling = erase id c.handling;
    effects = cancelled ctx ∷ c.effects;
  }

  -- `handleFrame`.
  unfoldable pub handle_frame : Frame V → WsConn V → Result (WsConn V)
  handle_frame f c =
      if f.method == ""
      then handle_response f c
      else if f.method == ws_cancel
      then cancel_ctx f c
      else if f.method == ch_value
      then handle_chan_message f c
      else if f.method == ch_close
      then handle_chan_close f c
      else handle_call f c

  -- `handleChanOut`: the id of the new output channel. `atomic.AddUint64` wraps.
  unfoldable pub handle_chan_out : V → WsConn V → V × WsConn V
  handle_chan_out ch c =
      let id = (c.chan_ctr + 1) % 2 ^ 64 in
      (
        uint64_value id,
        record c {
          chan_ctr = id;
          spawned = true;
          registrations = (id, ch) ∷ c.registrations;
          effects = if c.spawned then c.effects else started out_chans ∷ c.effects;
        },
      )
