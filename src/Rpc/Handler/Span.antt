-- ===== src/Rpc/Handler/Span.antt =====
-- handler.go: `getSpan`, which takes the trace context out of a request's metadata.
use lotus_dashboard.Common.{ℕ, String, Bool, true, false, Option, none, some, string_eq}
use lotus_dashboard.Common.Dict.{lookup}
use lotus_dashboard.Rpc.Message.{Bytes, Request}

-- The packages base64, propagation and trace. The decoded text comes in a buffer of `DecodedLen`
-- bytes, with zeros behind it.
pub record Tracing : Type 1 where
  pub SpanContext : Type 0
  pub base64_decode : String → Option Bytes
  pub base64_encode : Bytes → String
  pub from_binary : Bytes → Option SpanContext
  pub binary : SpanContext → Bytes
  pub start_remote : ℕ → String → SpanContext → ℕ  -- the context of the new span

module _ (tr : Tracing) where
  open tr use {SpanContext, base64_decode, from_binary, start_remote}

  -- The span context that the metadata carries, if it can be read.
  unfoldable pub span_context : {V : Type 0} → Request V → Option SpanContext
  span_context req = elim req.meta [
    | none ↦ none
    | some m ↦ elim (lookup "SpanContext" m) [
      | none ↦ none
      | some esc ↦ elim (base64_decode esc) [ none ↦ none | some bsc ↦ from_binary bsc ]
    ]
  ]

  -- The new context, and whether a span was started.
  unfoldable pub get_span : {V : Type 0} → ℕ → Request V → ℕ × Bool
  unfolding span_context
  get_span ctx req = elim (span_context req) [
    | none ↦ (ctx, false)
    | some sc ↦ (start_remote ctx "api.handle" sc, true)
  ]
