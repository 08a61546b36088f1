-- ===== src/Rpc/Server.antt =====
-- server.go, and `handleReader` of handler.go: requests over HTTP, and the errors sent back.
pub mod Outcomes
pub mod Replies
pub mod Session
mod Examples
use Prim.Native.String.{◌++◌ as ◌<>◌}
use lotus_dashboard.Common.{
  ℕ, String, List, [], ◌∷◌, ◌++◌, Bool, true, false, Option, none, some, Fault, Result, ok, fault,
  if◌then◌else◌, ◌==◌, string_eq,
}
use lotus_dashboard.Common.Int.{ℤ}
use lotus_dashboard.Rpc.Message.{Bytes, Request, Response, rpc_parse_error}
use lotus_dashboard.Rpc.Handler.{
  Reflect, Handlers, Action, rejected, finished, registered, written, register, handle,
}
use lotus_dashboard.Rpc.Handler.Span.{Tracing, get_span}
use text.Mathlib.Text.{find?}

-- What is asked of an `io.Writer`: a status line, if it is an `http.ResponseWriter`, or the encoding
-- of a response.
pub data Output (V : Type 0) : Type 0 where
  status : ℕ → Output V
  header : String → String → Output V
  body : Response V → Output V

-- `rpcError`: status 500 over HTTP; a notification gets no response.
unfoldable pub rpc_error : {V : Type 0} → Bool → Request V → ℤ → String → List (Output V)
rpc_error http req code err = (if http then status 500 ∷ [] else []) ++ elim req.id [
  | none ↦ []
  | some id ↦
      body (record {
        jsonrpc = "2.0";
        result = none;
        id = id;
        error = some (record { code = code; message = err });
      })
      ∷ []
]

-- What an action writes. `done` and `chOut` write nothing to `w`.
unfoldable pub output : {V : Type 0} → Bool → Request V → Action V → List (Output V)
unfolding rpc_error
output http req (rejected code err) = rpc_error http req code err
output http req (finished keep) = []
output http req (registered c) = []
output http req (written resp) = body resp ∷ []

unfoldable pub outputs : {V : Type 0} → Bool → Request V → List (Action V) → List (Output V)
unfolding output
outputs http req [] = []
outputs http req (a ∷ as') = output http req a ++ outputs http req as'

-- Whether `Encode` takes a response: only its result can be refused.
abbrev pub encodes : {V : Type 0} → (V → Option Bytes) → Response V → Bool
encodes marshal r = elim r.result [
  | none ↦ true
  | some v ↦ elim (marshal v) [ none ↦ false | some b ↦ true ]
]

-- What an `http.ResponseWriter` gets: a response that cannot be encoded is logged, and nothing is
-- written.
unfoldable pub delivered : {V : Type 0} → (V → Option Bytes) → List (Output V) → List (Output V)
delivered marshal [] = []
delivered marshal (body r ∷ os) =
    if encodes marshal r then body r ∷ delivered marshal os else delivered marshal os
delivered marshal (o ∷ os) = o ∷ delivered marshal os

pub record RpcServer (go : Reflect) : Type 0 where
  pub methods : Handlers go

module _ (go : Reflect) (tr : Tracing) (marshal : go.Value → Option Bytes) where
  -- `handleReader`: one request over plain HTTP, with no output channels. A decoding that fails
  -- leaves in `req` what it has read, and gives the text of its error.
  unfoldable pub handle_reader :
      Handlers go → ℕ → Request go.Value → Option String → List (Output go.Value) × Option Fault
  unfolding outputs delivered
  handle_reader hs ctx req (some e) =
      (rpc_error true req rpc_parse_error ("unmarshaling request: " <> e), none)
  handle_reader hs ctx req none =
      let out = handle go hs (get_span tr ctx req).0 req none in
      (delivered marshal (outputs true req out.actions), out.failed)

module _ (go : Reflect) (tr : Tracing) where
  unfoldable pub new_server : RpcServer go
  new_server = record { methods = [] }

  unfoldable pub server_register :
      String → go.Value → List (String × go.Func) → RpcServer go → Result (RpcServer go)
  server_register namespace val ms s = elim (register go namespace val ms s.methods) [
    | ok h ↦ ok (record { methods = h })
    | fault e ↦ fault e
  ]

  -- `strings.Contains(s, "Upgrade")`
  has_upgrade : String → Bool
  has_upgrade s = elim (find? s "Upgrade") [ none ↦ false | some i ↦ true ]

  -- `ServeHTTP`: `inr` hands the connection over to `handleWS`.
  pub data Served : Type 0 where
    over_http : List (Output go.Value) × Option Fault → Served
    over_websocket : Served

  unfoldable pub serve_http :
      (go.Value → Option Bytes)
      → RpcServer go
      → ℕ
      → String
      → Request go.Value
      → Option String
      → Served
  unfolding has_upgrade
  serve_http marshal s ctx connection req err =
      if has_upgrade connection
      then over_websocket
      else over_http (handle_reader go tr marshal s.methods ctx req err)

-- `handleWS`: the headers of the reply, and whether the connection goes on as a `wsConn`.
unfoldable pub handle_ws : {V : Type 0} → String → Bool → List (Output V) × Bool
handle_ws protocol upgraded = (
  header "Access-Control-Allow-Origin" "*"
        ∷ (if protocol == "" then [] else header "Sec-WebSocket-Protocol" protocol ∷ [])
      ++ (if upgraded then [] else status 500 ∷ []),
  upgraded,
)
