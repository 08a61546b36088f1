-- ===== src/Rpc/RoundTrip/Examples/Subscription.antt =====
-- A remote call of a method that returns channel 7.
use lotus_dashboard.Common.{
  ℕ, ◌≡◌, refl, List, [], ◌∷◌, map, Bool, true, Option, none, some, ok, nat_eq,
}
use lotus_dashboard.Common.Int.{pos, int64_succ}
use lotus_dashboard.Common.Dict.{lookup}
use lotus_dashboard.Rpc.Message.{Bytes, Param, Response, Frame, ClientResponse, ch_value}
use lotus_dashboard.Rpc.Util.{
  GoType, named, context_type, error_type, chan_type, process_outs, process_func_out,
}
use lotus_dashboard.Rpc.Handler.{
  Reflect, Called, returned, panicked, Handlers, RpcHandler, make_handler, takes_context,
  receivers_of, call_params, registered, written, finished, returns, handle,
}
use lotus_dashboard.Rpc.Handler.Returns.{Decodes}
use lotus_dashboard.Rpc.Handler.Channels.{ReturnsChannel}
use lotus_dashboard.Rpc.Websocket.{
  Json, Sink, ClientRequest, WsConn, replied, started, watch_context, sank, emit, handle_frame,
  handle_chan_out, handle_chan_message,
}
use lotus_dashboard.Rpc.Websocket.Loop.{connect}
use lotus_dashboard.Rpc.Client.{
  value, error, made, make_rpc_func, make_request, make_params, arguments, answered, finish_call,
}
use lotus_dashboard.Rpc.Client.Send.{sink_of}
use lotus_dashboard.Rpc.Client.Channels.{with_channel, channel_field}
use lotus_dashboard.Rpc.RoundTrip.{arriving}
use lotus_dashboard.Rpc.RoundTrip.Calls.{decoded_request}
use lotus_dashboard.Rpc.RoundTrip.Subscription.{subscription-handle}
use lotus_dashboard.Rpc.RoundTrip.Examples.{decode_number, side, conn}

abbrev one_byte : Bytes → Option ℕ
one_byte (n ∷ []) = some n
one_byte _ = none

abbrev js : Json ℕ
js = record {
  unmarshal_int64 = λ b. none;
  unmarshal_uint64 = one_byte;
  int64_value = λ n. 0;
  uint64_value = λ n. n;
}

abbrev notify : Bool → List ℕ → Called ℕ
notify f (r ∷ c ∷ []) = returned (7 ∷ 0 ∷ [])
notify f args = panicked "reflect: Call with wrong arguments"

abbrev notifying : Reflect
notifying = record {
  Value = ℕ;
  Func = Bool;
  func_type = λ f. record {
    ins = named "Handler" ∷ context_type ∷ [];
    outs = chan_type (named "int") ∷ error_type ∷ [];
  };
  func_text = λ f. "<func Value>";
  call = notify;
  context_value = λ n. n;
  decode = decode_number;
  value_of = λ v. v;
  interface = λ v. some v;
  error_text = λ v. none;
  is_chan = λ v. true;
}

abbrev notify_handler : RpcHandler ℕ Bool
notify_handler = record {
  param_receivers = [];
  n_params = 0;
  receiver = 0;
  handler_func = true;
  has_ctx = true;
  err_out = some 1;
  val_out = some 0;
}

abbrev table : Handlers notifying
table = ("Test.Notify", notify_handler) ∷ []

abbrev ins : List GoType
ins = context_type ∷ []

makes : make_handler notifying 0 true ≡ ok notify_handler
unfolding make_handler process_func_out process_outs takes_context receivers_of
makes = refl

decodes :
    Decodes notifying []
      (map
        (λ p. p.bytes)
        (make_request side
          (with_channel "Test" "Notify" ins (named "int"))
          (pos 0)
          3
          (5 ∷ [])).params)
      []
unfolding make_request make_params arguments
decodes = tt

notifies : ReturnsChannel notifying true (call_params notifying notify_handler 8 []) (named "int") 7
unfolding call_params
notifies = record {
  outs = refl;
  err = 0;
  called = refl;
  no_error = refl;
  not_nil = refl;
  a_channel = refl;
}

abbrev sink : Sink
sink = record { ctx = some 3; receiver = 8 }

-- The call in flight, with a receiver.
abbrev subscribing : ClientRequest ℕ
subscribing = record {
  req = record {
    jsonrpc = "2.0";
    id = some (pos 1);
    method = "Test.Notify";
    params = [];
    meta = none;
  };
  ready = some 6;
  ret_ch = some sink;
}

abbrev waiting_conn : WsConn ℕ
waiting_conn = record conn { inflight = (pos 1, subscribing) ∷ [] }

abbrev with_bytes : ℕ → Param ℕ
with_bytes n = record { bytes = n ∷ []; value = none }

-- A message for channel 1 whose parameters have bytes.
abbrev message : Frame ℕ
message = record {
  jsonrpc = "2.0";
  id = none;
  meta = none;
  method = ch_value;
  params = with_bytes 1 ∷ with_bytes 42 ∷ [];
  result = none;
  error = none;
}

first_id : (handle_chan_out js 7 connect).1.chan_ctr ≡ 1
unfolding handle_chan_out connect
first_id = refl

subscription-handle_example :
    (resp : Response ℕ) × (d : WsConn ℕ) × (x : ClientResponse) × (make_rpc_func "Test"
        (channel_field "Notify" ins (named "int"))
      ≡ ok (made (with_channel "Test" "Notify" ins (named "int"))))
    × (handle notifying table 8
          (decoded_request
            (make_request side (with_channel "Test" "Notify" ins (named "int")) (pos 0) 3 (5 ∷ [])))
          (some (λ ch. (handle_chan_out js ch connect).0))
        ≡ returns (registered 7 ∷ written resp ∷ finished true ∷ []))
    × (handle_frame js (arriving side.marshal resp) waiting_conn ≡ ok d)
    × (lookup 1 d.chan_handlers ≡ some sink)
    × (d.effects ≡ replied 6 x ∷ started (watch_context 3 (pos 1)) ∷ [])
    × (finish_call side
          (with_channel "Test" "Notify" ins (named "int"))
          (pos 1)
          (pos 0)
          9
          (answered x)
        ≡ ok (value 9 ∷ error none ∷ []))
    × (handle_chan_message js message d ≡ ok (emit (sank 8 (42 ∷ []) true) d))
unfolding handle_chan_out connect int64_succ sink_of
subscription-handle_example =
    subscription-handle notifying side js "Test" "Notify" ins (named "int") (pos 0) (pos 0) 3 8 6
      (5 ∷ []) 9 7 0 true notify_handler table [] (1 ∷ []) subscribing 3 8 waiting_conn connect
      message (with_bytes 1) (with_bytes 42) refl makes refl decodes notifies refl refl refl refl
      refl refl refl
