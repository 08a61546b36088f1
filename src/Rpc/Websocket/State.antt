-- ===== src/Rpc/Websocket/State.antt =====
-- websocket.go: the state of a `wsConn`, what it needs of encoding/json, and what it does outside.
use lotus_dashboard.Common.{ℕ, List, ◌∷◌, Bool, Option}
use lotus_dashboard.Common.Int.{ℤ}
use lotus_dashboard.Common.Dict.{Dict}
use lotus_dashboard.Rpc.Message.{Bytes, Request, ClientResponse}

-- json.Unmarshal into an int64 and a uint64, and reflect.ValueOf of such a number.
pub record Json (V : Type 0) : Type 0 where
  pub unmarshal_int64 : Bytes → Option ℤ
  pub unmarshal_uint64 : Bytes → Option ℕ
  pub int64_value : ℤ → V
  pub uint64_value : ℕ → V

-- A `makeChanSink`: its context, and the function for the messages that it gives, which goes by a
-- number. The context is nil for a function that takes none.
pub record Sink : Type 0 where
  pub ctx : Option ℕ
  pub receiver : ℕ

-- client.go `clientRequest`. Channels go by numbers; a nil channel or function is `none`.
pub record ClientRequest (V : Type 0) : Type 0 where
  pub req : Request V
  pub ready : Option ℕ
  pub ret_ch : Option Sink

-- What a `go` statement starts.
pub data Task (V : Type 0) : Type 0 where
  next_message out_chans : Task V
  call_handler : ℕ → Request V → Task V
  watch_context : ℕ → ℤ → Task V

-- What a connection does to the world outside its own fields.
pub data Effect (V : Type 0) : Type 0 where
  wrote : Request V → Effect V
  wrote_close : Effect V
  replied : ℕ → ClientResponse → Effect V
  cancelled : ℕ → Effect V
  sank : ℕ → Bytes → Bool → Effect V
  started : Task V → Effect V
  closed_exiting closed_register : Effect V

-- `wsConn`. `next_ctx` numbers the contexts that it makes; `registrations` is what was sent to
-- `registerCh`; `effects` is newest first.
pub record WsConn (V : Type 0) : Type 0 where
  pub inflight : Dict ℤ (ClientRequest V)
  pub chan_handlers : Dict ℕ Sink
  pub handling : Dict ℤ ℕ
  pub next_ctx : ℕ
  pub chan_ctr : ℕ
  pub spawned : Bool
  pub registrations : List (ℕ × V)
  pub effects : List (Effect V)

abbrev pub emit : {V : Type 0} → Effect V → WsConn V → WsConn V
emit e c = record c { effects = e ∷ c.effects }
