-- ===== src/Rpc/Server/Outcomes.antt =====
-- What a client of the HTTP server gets: the response of a method, an error, or nothing.
use Prim.Native.String.{◌++◌ as ◌<>◌}
use lotus_dashboard.Common.{
  ℕ, ◌≡◌, ◌⊎◌, inl, inr, refl, String, List, [], ◌∷◌, map, Bool, true, false, Option, none, some,
  ok, Fault, nil_dereference, length, ◌==◌, nat_eq, string_eq, if◌then◌else◌,
}
use lotus_dashboard.Common.Int.{ℤ}
use lotus_dashboard.Common.Dict.{lookup}
use lotus_dashboard.Rpc.Message.{Bytes, Request, rpc_method_not_found, rpc_invalid_params}
use lotus_dashboard.Rpc.Util.{GoType}
use lotus_dashboard.Rpc.Handler.{Reflect, Handlers, RpcHandler, make_handler, call_params, handle}
use lotus_dashboard.Rpc.Handler.Span.{Tracing, get_span, span_context}
use lotus_dashboard.Rpc.Handler.Returns.{
  Decodes, Returns, response_of, handle-Returns, handle_without_id,
}
use lotus_dashboard.Rpc.Server.{
  Output, status, body, encodes, delivered, output, outputs, rpc_error, handle_reader,
}

-- What is written, and the fault that ends the handler, if one does.
abbrev pub Reply : Type 0 → Type 0
Reply V = List (Output V) × Option Fault

abbrev pub is_some : {A : Type 0} → Option A → Bool
is_some none = false
is_some (some a) = true

module _ (go : Reflect) (tr : Tracing) (marshal : go.Value → Option Bytes) where
  open go use {Value, Func}

  -- Over plain HTTP, for a method in the table whose parameters decode and which returns a value
  -- that is neither nil nor a channel and can be encoded, and an error, which may be nil: a request
  -- with an id is answered by one response with that value, that error and the id, and with no
  -- status of its own; for the same request without an id the handler panics and writes nothing.
  pub handle_reader-Returns :
      (hs : Handlers go) (ctx : ℕ) (req : Request Value) (n : ℤ) (val : Value) (f : Func)
      (h : RpcHandler Value Func) (vs : List Value) (t : GoType) (v : Value) (m : Option String)
      → make_handler go val f ≡ ok h
      → lookup req.method hs ≡ some h
      → req.id ≡ some n
      → Decodes go h.param_receivers (map (λ p. p.bytes) req.params) vs
      → Returns go f (call_params go h (get_span tr ctx req).0 vs) t v m
      → encodes marshal (response_of go n v m) ≡ true
      → (handle_reader go tr marshal hs ctx req none ≡ (body (response_of go n v m) ∷ [], none))
        × (handle_reader go tr marshal hs ctx (record req { id = none }) none
            ≡ ([], some nil_dereference))
  unfolding handle_reader delivered outputs output get_span span_context
  handle_reader-Returns hs ctx req n val f h vs t v m made found id d r enc = (
    rw (handle-Returns go hs _ req none n val f h vs t v found made id d r, enc) refl,
    rw
        (handle_without_id go hs _ (record req { id = none }) none val f h vs t v found made refl d
          r)
        refl,
  )

  -- Over plain HTTP, a request for a method that is not in the table, or with another number of
  -- parameters than the method has, is answered by status 500 and one error with its id, whose
  -- code says which; the same request without an id gets the status alone.
  handle_reader_rejects :
      (hs : Handlers go) (ctx : ℕ) (req : Request Value) (n : ℤ)
      → req.id ≡ some n
      → (lookup req.method hs ≡ none)
        ⊎ ((h : RpcHandler Value Func) × (lookup req.method hs ≡ some h)
            × ((length req.params == h.n_params) ≡ false))
      → (code : ℤ) × (text : String) × (code
          ≡ (if is_some (lookup req.method hs) then rpc_invalid_params else rpc_method_not_found))
        × (handle_reader go tr marshal hs ctx req none ≡ (
          status 500
              ∷ body (record {
                jsonrpc = "2.0";
                result = none;
                id = n;
                error = some (record { code = code; message = text });
              })
              ∷ [],
          none,
        ))
        × (handle_reader go tr marshal hs ctx (record req { id = none }) none
            ≡ (status 500 ∷ [], none))
  unfolding handle_reader delivered outputs output rpc_error handle
  handle_reader_rejects hs ctx req n id (inl missing) = (
    rpc_method_not_found,
    "method '" <> (req.method <> "' not found"),
    rw missing refl,
    rw (missing, handle, id) refl,
    rw (missing, handle) refl,
  )
  handle_reader_rejects hs ctx req n id (inr (h, found, wrong)) = (
    rpc_invalid_params,
    "wrong param count",
    rw found refl,
    rw (found, wrong, handle, id) refl,
    rw (found, wrong, handle) refl,
  )
