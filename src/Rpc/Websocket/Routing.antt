-- ===== src/Rpc/Websocket/Routing.antt =====
-- Which answer comes to which caller: the responses of a connection may come in any order.
pub mod Turns
use mathlib.Core.Path.{subst}
use lotus_dashboard.Common.{
  ℕ, ◌≡◌, ◌∙◌, refl, sym, ap, ◌⊎◌, inl, inr, List, [], ◌∷◌, Bool, true, false, Option, none, some,
  Result, ok, fault, arith, Option-cases, Bool-cases, string_eq, nat_eq, ◌==◌, All, if◌then◌else◌,
  >>=-step, or_fault, nil_dereference,
}
use lotus_dashboard.Common.Int.{ℤ, int_eq, int_beq_iff}
use lotus_dashboard.Common.Dict.{Dict, lookup, insert, erase, lookup-insert, lookup-erase}
use lotus_dashboard.Rpc.Message.{Frame, Bytes, own, ClientResponse}
use lotus_dashboard.Rpc.Websocket.{
  Json, Sink, ClientRequest, Effect, WsConn, replied, started, next_message, emit, reply,
  respond_to, handle_response, cancel_ctx, handle_chan_message, handle_chan_close, handle_call,
  handle_frame, send_request,
}
use lotus_dashboard.Rpc.Websocket.Loop.{
  Event, received, incoming_closed, requested, stopped, running, take_request, loop_step, Runs,
  start, turn, connect,
}

-- The answers that were handed out, each with the channel that it went to.
abbrev pub answers : {V : Type 0} → List (Effect V) → List (ℕ × ClientResponse)
answers [] = []
answers (replied k x ∷ es) = (k, x) ∷ answers es
answers (e ∷ es) = answers es

pub data Among {A : Type 0} (a : A) : List A → Type 0 where
  first : {as' : List A} → Among a (a ∷ as')
  later : {b : A} {as' : List A} → Among a as' → Among a (b ∷ as')

module _ {V : Type 0} where
  -- The request was taken under the id.
  pub record Taken (es : List (Event V)) (id : ℤ) (r : ClientRequest V) : Type 0 where
    pub written : Bool
    pub among : Among (requested r written) es
    pub same_id : r.req.id ≡ some id

  -- An answer is that of a response that was received for a request that was taken, by its id, and
  -- went to the request's channel.
  pub record IsRouted (es : List (Event V)) (k : ℕ) (x : ClientResponse) : Type 0 where
    pub id : ℤ
    pub request : ClientRequest V
    pub response : Frame V
    pub taken : Taken es id request
    pub channel : request.ready ≡ some k
    pub came : Among (received (some response)) es
    pub for_it : response.id ≡ some id
    pub version : x.jsonrpc ≡ response.jsonrpc
    pub named : x.id ≡ own id
    pub result : x.result ≡ response.result
    pub error : x.error ≡ response.error

  abbrev pub AllRouted : List (Event V) → List (ℕ × ClientResponse) → Type 0
  AllRouted es as' = All (λ a. IsRouted es a.0 a.1) as'

  Taken-later :
      (ev : Event V) (es : List (Event V)) (id : ℤ) (r : ClientRequest V)
      → Taken es id r
      → Taken (ev ∷ es) id r
  Taken-later ev es id r t = record {
    written = t.written;
    among = later t.among;
    same_id = t.same_id;
  }

  AllRouted-later :
      (ev : Event V) (es : List (Event V)) (as' : List (ℕ × ClientResponse))
      → AllRouted es as'
      → AllRouted (ev ∷ es) as'
  AllRouted-later ev es [] a = tt
  AllRouted-later ev es ((k, x) ∷ as') (a, rest) = (
    record {
      id = a.id;
      request = a.request;
      response = a.response;
      taken = Taken-later ev es a.id a.request a.taken;
      channel = a.channel;
      came = later a.came;
      for_it = a.for_it;
      version = a.version;
      named = a.named;
      result = a.result;
      error = a.error;
    },
    AllRouted-later ev es as' rest,
  )

  -- What is in flight was taken under its key, and the answers so far are routed.
  record Routes (es : List (Event V)) (c : WsConn V) : Type 0 where
    flying : (id : ℤ) (r : ClientRequest V) → lookup id c.inflight ≡ some r → Taken es id r
    answered : AllRouted es (answers c.effects)

  -- A step that answers nobody, and one that answers the request with the frame's id.
  abbrev Silent : WsConn V → WsConn V → Type 0
  Silent c d = (d.inflight ≡ c.inflight) × (answers d.effects ≡ answers c.effects)

  record Told (f : Frame V) (c d : WsConn V) : Type 0 where
    id : ℤ
    request : ClientRequest V
    channel : ℕ
    for_it : f.id ≡ some id
    found : lookup id c.inflight ≡ some request
    ready : request.ready ≡ some channel
    flying : d.inflight ≡ erase id c.inflight
    told :
        answers d.effects
        ≡ (channel, record { jsonrpc = f.jsonrpc; result = f.result; id = own id; error = f.error })
          ∷ answers c.effects

  abbrev Speaks : Frame V → WsConn V → Result (WsConn V) → Type 0
  Speaks f c (ok d) = Silent c d ⊎ Told f c d
  Speaks f c (fault e) = Unit

  abbrev Quiet : WsConn V → Result (WsConn V) → Type 0
  Quiet c (ok d) = Silent c d
  Quiet c (fault e) = Unit

  Quiet-Speaks : (f : Frame V) (c : WsConn V) (r : Result (WsConn V)) → Quiet c r → Speaks f c r
  Quiet-Speaks f c (ok d) q = inl q
  Quiet-Speaks f c (fault e) q = tt

  reply-Speaks :
      (id : ℤ) (r : ClientRequest V) (f : Frame V) (c b : WsConn V) (k : Option ℕ)
      → f.id ≡ some id
      → lookup id c.inflight ≡ some r
      → r.ready ≡ k
      → Silent c b
      → Speaks f c (reply id f k b)
  unfolding reply
  reply-Speaks id r f c b none i l e s = tt
  reply-Speaks id r f c b (some k) i l e (same, quiet) = inr (record {
    id = id;
    request = r;
    channel = k;
    for_it = i;
    found = l;
    ready = e;
    flying = ap (erase id) same;
    told =
        ap
          (λ as'.
            (k, record { jsonrpc = f.jsonrpc; result = f.result; id = own id; error = f.error })
            ∷ as')
          quiet;
  })

module _ {V : Type 0} (js : Json V) where
  open js use {unmarshal_uint64}

  respond_to-Speaks :
      (id : ℤ) (r : ClientRequest V) (f : Frame V) (s : Option Sink) (b : Option Bytes)
      (c : WsConn V)
      → f.id ≡ some id
      → lookup id c.inflight ≡ some r
      → Speaks f c (respond_to js id r f s b c)
  unfolding respond_to
  respond_to-Speaks id r f none b c i l = reply-Speaks id r f c c r.ready i l refl (refl, refl)
  respond_to-Speaks id r f (some sink) none c i l =
      reply-Speaks id r f c c r.ready i l refl (refl, refl)
  respond_to-Speaks id r f (some sink) (some res) c i l =
      elim (Option-cases (unmarshal_uint64 res)) [
        | inl e ↦ rw (e, respond_to) (inl (refl, refl))
        | inr (ch, e) ↦ elim (Option-cases sink.ctx) [
          | inl w ↦ rw (e, respond_to) (rw w tt)
          | inr (x, w) ↦
              rw (e, respond_to) (rw w (reply-Speaks id r f c _ r.ready i l refl (refl, refl)))
        ]
      ]

  handle_response-Speaks : (f : Frame V) (c : WsConn V) → Speaks f c (handle_response js f c)
  unfolding handle_response
  handle_response-Speaks f c = elim (Option-cases f.id) [
    | inl e ↦ rw (e, handle_response) (inl (refl, refl))
    | inr (id, e) ↦ elim (Option-cases (lookup id c.inflight)) [
      | inl g ↦ rw (e, handle_response) (rw g (inl (refl, refl)))
      | inr (r, g) ↦
          let speaks : handle_response js f c ≡ respond_to js id r f r.ret_ch f.result c =
            rw (e, handle_response) (rw g refl) in
          subst (Speaks f c) (sym speaks) (respond_to-Speaks id r f r.ret_ch f.result c e g)
    ]
  ]

  cancel_ctx-silent : (f : Frame V) (c : WsConn V) → Quiet c (cancel_ctx js f c)
  unfolding cancel_ctx
  cancel_ctx-silent f c = ground arith

  handle_chan_message-silent : (f : Frame V) (c : WsConn V) → Quiet c (handle_chan_message js f c)
  unfolding handle_chan_message
  handle_chan_message-silent f c = ground arith

  handle_chan_close-silent : (f : Frame V) (c : WsConn V) → Quiet c (handle_chan_close js f c)
  unfolding handle_chan_close
  handle_chan_close-silent f c = ground arith

  handle_call-silent : (f : Frame V) (c : WsConn V) → Quiet c (handle_call js f c)
  unfolding handle_call
  handle_call-silent f c = ground arith

  handle_frame-Speaks : (f : Frame V) (c : WsConn V) → Speaks f c (handle_frame js f c)
  unfolding handle_frame
  handle_frame-Speaks f c = grind (
    arith,
    handle_response-Speaks f c,
    Quiet-Speaks,
    cancel_ctx-silent f c,
    handle_chan_message-silent f c,
    handle_chan_close-silent f c,
    handle_call-silent f c,
  )
