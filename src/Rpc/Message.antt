-- ===== src/Rpc/Message.antt =====
-- The messages of main/rpc: the structs of handler.go, util.go, client.go and websocket.go that
-- hold data, over the type `V` of reflect.Value.
use lotus_dashboard.Common.{ℕ, ◌&&◌, Bool, String, List, Option, if◌then◌else◌, leb}
use lotus_dashboard.Common.Int.{ℤ, pos, negsuc}
use lotus_dashboard.Common.Dict.{Dict}

-- A nil slice and an empty one are both `[]`: the program tests neither apart.
abbrev pub Bytes : Type 0
Bytes = List ℕ

-- util.go `Param`: the encoded bytes, and the value that the sender keeps beside them.
pub record Param (V : Type 0) : Type 0 where
  pub bytes : Bytes
  pub value : Option V

-- `ID *int64` is `none` for a notification; `Meta` is `none` for a nil map.
pub record Request (V : Type 0) : Type 0 where
  pub jsonrpc : String
  pub id : Option ℤ
  pub method : String
  pub params : List (Param V)
  pub meta : Option (Dict String String)

pub record RespError : Type 0 where
  pub code : ℤ
  pub message : String

-- The server's `response`; `Result` is `none` for a nil interface.
pub record Response (V : Type 0) : Type 0 where
  pub jsonrpc : String
  pub result : Option V
  pub id : ℤ
  pub error : Option RespError

-- websocket.go `frame`: any message that comes in. `Result` is `none` for a nil RawMessage.
pub record Frame (V : Type 0) : Type 0 where
  pub jsonrpc : String
  pub id : Option ℤ
  pub meta : Option (Dict String String)
  pub method : String
  pub params : List (Param V)
  pub result : Option Bytes
  pub error : Option RespError

-- Where a `*int64` of a `clientResponse` points: nowhere, at a number of its own, or at the loop
-- variable of `handleWsConn`'s cleanup, which every turn of the loop overwrites.
pub data IdPointer : Type 0 where
  nil : IdPointer
  own : ℤ → IdPointer
  loop_variable : IdPointer

pub record ClientResponse : Type 0 where
  pub jsonrpc : String
  pub result : Option Bytes
  pub id : IdPointer
  pub error : Option RespError

-- server.go: the codes of JSON-RPC 2.0, -32700, -32601 and -32602.
abbrev pub rpc_parse_error : ℤ
rpc_parse_error = negsuc 32699

abbrev pub rpc_method_not_found : ℤ
rpc_method_not_found = negsuc 32600

abbrev pub rpc_invalid_params : ℤ
rpc_invalid_params = negsuc 32601

-- websocket.go: the built-in methods.
abbrev pub ws_cancel : String
ws_cancel = "xrpc.cancel"

abbrev pub ch_value : String
ch_value = "xrpc.ch.val"

abbrev pub ch_close : String
ch_close = "xrpc.ch.close"

-- `c >= -32768 && c <= -32000`
abbrev is_reserved : ℤ → Bool
is_reserved (pos _) = Bool.false
is_reserved (negsuc n) = leb n 32767 && leb 31999 n

-- `respError.Error`: the format has no verb, so Sprintf returns it as it is.
pub error_text : RespError → String
error_text e = if is_reserved e.code then "RPC error #{e.Code}:#{e.Message}" else e.message
