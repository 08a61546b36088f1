-- ===== src/Rpc/Server/Examples.antt =====
-- Requests over HTTP for a method that doubles a number.
use lotus_dashboard.Common.{
  ℕ, ◌≡◌, refl, String, Option, [], ◌∷◌, true, none, some, nil_dereference,
}
use lotus_dashboard.Common.Int.{pos}
use lotus_dashboard.Rpc.Message.{Bytes, Request}
use lotus_dashboard.Rpc.Util.{named}
use lotus_dashboard.Rpc.Handler.{call_params}
use lotus_dashboard.Rpc.Handler.Span.{Tracing, get_span, span_context}
use lotus_dashboard.Rpc.Handler.Returns.{Returns}
use lotus_dashboard.Rpc.Server.{body, handle_reader}
use lotus_dashboard.Rpc.Server.Outcomes.{handle_reader-Returns}
use lotus_dashboard.Rpc.RoundTrip.Examples.{go, table, double_handler, makes}

-- No span is ever read.
abbrev untraced : Tracing
untraced = record {
  SpanContext = ℕ;
  base64_decode = λ s. none;
  base64_encode = λ b. "";
  from_binary = λ b. none;
  binary = λ n. [];
  start_remote = λ ctx name n. ctx;
}

abbrev encode_number : ℕ → Option Bytes
encode_number n = some (n ∷ [])

abbrev ask : String → Request ℕ
ask m = record {
  jsonrpc = "2.0";
  id = some (pos 1);
  method = m;
  params = record { bytes = 21 ∷ []; value = none } ∷ [];
  meta = none;
}

doubles :
    Returns go true
      (call_params go double_handler (get_span untraced 8 (ask "Test.Double")).0 (21 ∷ []))
      (named "int")
      42
      none
unfolding call_params get_span span_context
doubles = record {
  outs = refl;
  plain = refl;
  err = 0;
  called = refl;
  says = refl;
  not_nil = refl;
  no_channel = refl;
}

handle_reader-Returns_example :
    (handle_reader go untraced encode_number table 8 (ask "Test.Double") none
      ≡ (body (record { jsonrpc = "2.0"; result = some 42; id = pos 1; error = none }) ∷ [], none))
    × (handle_reader go untraced encode_number table 8
          (record (ask "Test.Double") { id = none })
          none
        ≡ ([], some nil_dereference))
handle_reader-Returns_example =
    handle_reader-Returns go untraced encode_number table 8 (ask "Test.Double") (pos 1) 0 true
      double_handler (21 ∷ []) (named "int") 42 none makes refl refl ((_, refl, refl), tt) doubles
      refl
