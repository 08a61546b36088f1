-- ===== src/Rpc/RoundTrip/Examples.antt =====
-- A remote call of a method that doubles a number.
mod Plain
mod Subscription
use mathlib.Core.Path.{subst}
use lotus_dashboard.Common.{
  ℕ, ◌+◌, ◌≡◌, refl, inl, String, List, [], ◌∷◌, map, Bool, true, false, Option, none, some, ok,
  arith, if◌then◌else◌, ◌==◌, string_eq,
}
use lotus_dashboard.Common.Int.{ℤ, pos, int64_succ}
use lotus_dashboard.Rpc.Message.{rpc_method_not_found, Bytes, Request, Response, ClientResponse}
use lotus_dashboard.Rpc.Util.{
  GoType, named, context_type, error_type, process_outs, process_func_out, unmarshal_json,
}
use lotus_dashboard.Rpc.Handler.{
  Reflect, Decoded, decoded, undecodable, Called, returned, panicked, Handlers, RpcHandler,
  make_handler, finished, written, returns, handle, takes_context, receivers_of, call_params,
}
use lotus_dashboard.Rpc.Handler.Returns.{Decodes, Returns}
use lotus_dashboard.Rpc.Websocket.{Json, ClientRequest, WsConn, replied, handle_frame}
use lotus_dashboard.Rpc.Client.{
  ClientSide, value, error, made, make_rpc_func, make_request, make_params, make_param, arguments,
  answered, finish_call,
}
use lotus_dashboard.Rpc.Client.Returns.{with_error, field_of}
use lotus_dashboard.Rpc.RoundTrip.Calls.{remote_call}
use lotus_dashboard.Rpc.Handler.Answers.{ReturnsOutputs}
use lotus_dashboard.Rpc.Handler.Tables.{IsWellFormed, IsTable}
use lotus_dashboard.Rpc.Handler.Span.{Tracing, get_span}
use lotus_dashboard.Rpc.Websocket.Starting.{request_in}
use lotus_dashboard.Rpc.Link.{frame_of}
use lotus_dashboard.Rpc.RoundTrip.Tracing.{get_span-make_request}
use lotus_dashboard.Rpc.RoundTrip.Outcomes.{remote_call_rejects}
use lotus_dashboard.Rpc.RoundTrip.{arriving, Arrives, finish_call-handle}

abbrev pub decode_number : GoType → Bytes → Decoded ℕ
decode_number t (n ∷ []) = decoded n
decode_number t b = undecodable "unexpected end of JSON input"

abbrev pub double : Bool → List ℕ → Called ℕ
double f (r ∷ c ∷ n ∷ []) = returned ((n + n) ∷ 0 ∷ [])
double f args = panicked "reflect: Call with wrong arguments"

abbrev pub go : Reflect
go = record {
  Value = ℕ;
  Func = Bool;
  func_type = λ f. record {
    ins = named "Handler" ∷ context_type ∷ named "int" ∷ [];
    outs = named "int" ∷ error_type ∷ [];
  };
  func_text = λ f. "<func Value>";
  call = double;
  context_value = λ n. n;
  decode = decode_number;
  value_of = λ v. v;
  interface = λ v. some v;
  error_text = λ v. none;
  is_chan = λ v. false;
}

abbrev side : ClientSide ℕ
side = record {
  zero_value = λ t. 0;
  marshal = λ n. some (n ∷ []);
  unmarshal = decode_number;
  span_binary = λ n. n ∷ [];
  base64_encode = λ b. "";
}

abbrev numbers : Json ℕ
numbers = record {
  unmarshal_int64 = λ b. none;
  unmarshal_uint64 = λ b. none;
  int64_value = λ n. 0;
  uint64_value = λ n. n;
}

abbrev pub double_handler : RpcHandler ℕ Bool
double_handler = record {
  param_receivers = named "int" ∷ [];
  n_params = 1;
  receiver = 0;
  handler_func = true;
  has_ctx = true;
  err_out = some 1;
  val_out = some 0;
}

abbrev pub table : Handlers go
table = ("Test.Double", double_handler) ∷ []

abbrev ins : List GoType
ins = context_type ∷ named "int" ∷ []

abbrev got : Request ℕ
got = record {
  jsonrpc = "2.0";
  id = some (pos 1);
  method = "Test.Double";
  params = record { bytes = 21 ∷ []; value = none } ∷ [];
  meta = none;
}

got-Arrives :
    Arrives
      (make_request side (with_error "Test" "Double" ins (named "int")) (pos 0) 3 (5 ∷ 21 ∷ []))
      got
unfolding make_request make_params make_param arguments int64_succ unmarshal_json
got-Arrives = record { same_id = refl; same_method = refl; same_bytes = refl }

pub makes : make_handler go 0 true ≡ ok double_handler
unfolding make_handler process_func_out process_outs takes_context receivers_of
makes = refl

decodes :
    Decodes go
      (named "int" ∷ [])
      (map (λ p. p.bytes) (make_params side (arguments side true (5 ∷ 21 ∷ []))))
      (arguments side true (5 ∷ 21 ∷ []))
unfolding make_params make_param arguments unmarshal_json
decodes = ((_, refl, refl), tt)

doubles :
    Returns go true
      (call_params go double_handler 8 (arguments side true (5 ∷ 21 ∷ [])))
      (named "int")
      42
      none
unfolding call_params arguments
doubles = record {
  outs = refl;
  plain = refl;
  err = 0;
  called = refl;
  says = refl;
  not_nil = refl;
  no_channel = refl;
}

abbrev waiting : ClientRequest ℕ
waiting = record { req = got; ready = some 6; ret_ch = none }

abbrev conn : WsConn ℕ
conn = record {
  inflight = (pos 1, waiting) ∷ [];
  chan_handlers = [];
  handling = [];
  next_ctx = 1;
  chan_ctr = 0;
  spawned = false;
  registrations = [];
  effects = [];
}

finish_call-handle_example :
    (resp : Response ℕ) × (d : WsConn ℕ) × (x : ClientResponse) × (make_rpc_func "Test"
        (field_of "Double" ins (named "int"))
      ≡ ok (made (with_error "Test" "Double" ins (named "int"))))
    × (handle go table 8 got none ≡ returns (written resp ∷ finished false ∷ []))
    × (handle_frame numbers (arriving side.marshal resp) conn ≡ ok d)
    × (d.effects ≡ replied 6 x ∷ [])
    × (finish_call side
          (with_error "Test" "Double" ins (named "int"))
          (pos 1)
          (pos 0)
          0
          (answered x)
        ≡ ok (value 42 ∷ error none ∷ []))
unfolding int64_succ
finish_call-handle_example =
    finish_call-handle go side numbers "Test" "Double" ins (named "int") (pos 0) (pos 0) 3 8 6
      (5 ∷ 21 ∷ []) 0 42 none none 0 true double_handler table got (42 ∷ []) waiting conn
      got-Arrives makes refl decodes doubles refl refl refl refl refl

-- There is no method Halve.
remote_call_rejects_example :
    (code : ℤ) × (text : String) × (code ≡ rpc_method_not_found)
    × (remote_call go side numbers table 8
          (λ n. n)
          (with_error "Test" "Halve" ins (named "int"))
          (pos 0)
          3
          (5 ∷ 21 ∷ [])
          0
          conn
        ≡ ok (value 0 ∷ error (some (record { code = code; message = text })) ∷ []))
remote_call_rejects_example =
    remote_call_rejects go side numbers table 8 (λ n. n) "Test" "Halve" ins (named "int") (pos 0) 3
      (5 ∷ 21 ∷ []) 0 conn (inl refl)

pub double-ReturnsOutputs : ReturnsOutputs go
double-ReturnsOutputs f [] out e = absurd (ground arith)
double-ReturnsOutputs f (r ∷ []) out e = absurd (ground arith)
double-ReturnsOutputs f (r ∷ c ∷ []) out e = absurd (ground arith)
double-ReturnsOutputs f (r ∷ c ∷ n ∷ []) out e = ground arith
double-ReturnsOutputs f (r ∷ c ∷ n ∷ m ∷ rest) out e = absurd (ground arith)

pub table-IsTable : IsTable go table
table-IsTable k h e =
    let same : double_handler ≡ h = ground arith in
    subst (IsWellFormed go) same
      (record { arity = refl; value_in_range = omega arith; error_in_range = omega arith })

-- The double of 21 is asked for with the span 3, whose context is 7.
abbrev decode_context : String → Option Bytes
decode_context s = if s == "context" then some (7 ∷ 0 ∷ []) else none

abbrev read_context : Bytes → Option ℕ
read_context [] = none
read_context (n ∷ rest) = some n

abbrev traced : Tracing
traced = record {
  SpanContext = ℕ;
  base64_decode = decode_context;
  base64_encode = λ b. "context";
  from_binary = read_context;
  binary = λ n. n ∷ [];
  start_remote = λ ctx name n. ctx + n;
}

abbrev traced_side : ClientSide ℕ
traced_side = record side { base64_encode = λ b. "context" }

get_span-make_request_example :
    get_span traced 8 (
      request_in (
        frame_of (
          make_request traced_side
            (with_error "Test" "Double" ins (named "int"))
            (pos 0)
            7
            (5 ∷ 21 ∷ []))))
    ≡ (15, true)
get_span-make_request_example =
    get_span-make_request traced_side traced (with_error "Test" "Double" ins (named "int")) (pos 0)
      7 8 (5 ∷ 21 ∷ []) 7 (0 ∷ []) refl refl refl
