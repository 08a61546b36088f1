-- ===== src/Rpc/Client/Sink.antt =====
-- client.go `makeOutChan`: the buffer between the messages of a remote channel and the local one.
pub mod Order
pub mod Pending
pub mod Drain
pub mod Following
pub mod Prefix
use lotus_dashboard.Common.{
  ℕ, List, [], ◌∷◌, ◌++◌, Bool, true, false, Option, none, some, Fault, Result, ok, fault,
  send_on_closed, close_of_closed, length, ltb, if◌then◌else◌,
}
use lotus_dashboard.Rpc.Message.{Bytes}

-- `buf`, whether a goroutine empties it, what the channel's reader has got (oldest first), whether
-- the channel is closed, and whether the contexts are cancelled.
pub record Buffer (V : Type 0) : Type 0 where
  pub buf : List V
  pub working : Bool
  pub delivered : List V
  pub closed : Bool
  pub ctx_cancelled : Bool
  pub ch_cancelled : Bool

abbrev pub new_buffer : {V : Type 0} → Buffer V
new_buffer = record {
  buf = [];
  working = false;
  delivered = [];
  closed = false;
  ctx_cancelled = false;
  ch_cancelled = false;
}

-- What happens to the buffer: a message, the remote's close, the end of the caller's context, and
-- the two cases of the goroutine's `select`.
pub data Happens : Type 0 where
  message : Bytes → Happens
  remote_closed context_ended cancel_chosen send_chosen : Happens

module _ {V : Type 0} (unmarshal : Bytes → Option V) where
  -- `buf.PushBack(val)`, and a goroutine if the buffer was empty.
  push_back : V → Buffer V → Buffer V
  push_back v b =
      let buf' = b.buf ++ v ∷ [] in
      if ltb 1 (length buf')
      then record b { buf = buf' }
      else record b { buf = buf'; working = true }

  -- `if ctx.Err() != nil { … return }`
  accept : Bool → V → Buffer V → Buffer V
  unfolding push_back
  accept true v b = b
  accept false v b = push_back v b

  -- The function for a message: what does not parse, or comes behind the end of the context, is
  -- dropped.
  receive : Bytes → Buffer V → Buffer V
  unfolding accept
  receive r b = elim (unmarshal r) [ none ↦ b | some v ↦ accept b.ctx_cancelled v b ]

  -- `case 1` of the goroutine: the front of the buffer is sent and removed.
  send_front : List V → Buffer V → Buffer V
  send_front [] b = record b { working = false }
  send_front (v ∷ []) b = record b { buf = []; working = false; delivered = b.delivered ++ v ∷ [] }
  send_front (v ∷ w ∷ r) b = record b { buf = w ∷ r; delivered = b.delivered ++ v ∷ [] }

  -- One event. A case of the goroutine's `select` that cannot be chosen changes nothing; a send to
  -- a channel that has been closed panics.
  unfoldable pub sink_step : Happens → Buffer V → Result (Buffer V)
  unfolding receive send_front
  sink_step (message r) b = ok (receive r b)
  sink_step remote_closed b =
      if b.closed
      then fault close_of_closed
      else ok (record b { closed = true; ch_cancelled = true })
  sink_step context_ended b = ok (record b { ctx_cancelled = true; ch_cancelled = true })
  sink_step cancel_chosen b =
      if b.working
      then (if b.ch_cancelled then ok (record b { buf = []; working = false }) else ok b)
      else ok b
  sink_step send_chosen b =
      if b.working
      then (if b.closed then fault send_on_closed else ok (send_front b.buf b))
      else ok b
