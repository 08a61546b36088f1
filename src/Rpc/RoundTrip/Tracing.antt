-- ===== src/Rpc/RoundTrip/Tracing.antt =====
-- The trace context of a call, from handleRpcCall's metadata to the server's getSpan.
use lotus_dashboard.Common.{
  ℕ, ◌≡◌, refl, List, ◌++◌, true, false, some, if◌then◌else◌, Bool-cases, inl, inr, string_eq,
}
use lotus_dashboard.Common.Int.{ℤ}
use lotus_dashboard.Rpc.Message.{Bytes}
use lotus_dashboard.Rpc.Handler.Span.{Tracing, span_context, get_span}
use lotus_dashboard.Rpc.Client.{ClientSide, RpcFunc, make_request}
use lotus_dashboard.Rpc.Link.{frame_of}
use lotus_dashboard.Rpc.Websocket.Starting.{request_in}

module _ {V : Type 0} (cs : ClientSide V) (tr : Tracing) where
  open tr use {SpanContext, base64_decode, base64_encode, from_binary, binary, start_remote}

  -- The trace of a call goes on at the server. If the binary format of a span context is read back
  -- from a buffer that begins with it, and base64 decodes into such a buffer what it has encoded:
  -- then `getSpan`, for the request as it comes out of its frame, starts a span whose remote parent
  -- is the span of the call, if the function takes a context, and leaves the context alone if it
  -- takes none.
  pub get_span-make_request :
      (fn : RpcFunc) (ctr : ℤ) (span ctx : ℕ) (args : List V) (sc : SpanContext) (rest : Bytes)
      → cs.span_binary span ≡ binary sc
      → base64_decode (cs.base64_encode (binary sc)) ≡ some (binary sc ++ rest)
      → from_binary (binary sc ++ rest) ≡ some sc
      → get_span tr ctx (request_in (frame_of (make_request cs fn ctr span args)))
        ≡ (if fn.has_ctx then (start_remote ctx "api.handle" sc, true) else (ctx, false))
  unfolding get_span span_context make_request frame_of
  get_span-make_request fn ctr span ctx args sc rest e d b = elim (Bool-cases fn.has_ctx) [
    | inl with_ctx ↦ rw (with_ctx, e, d, b) refl
    | inr without ↦ rw without refl
  ]
