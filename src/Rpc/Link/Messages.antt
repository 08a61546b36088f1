-- ===== src/Rpc/Link/Messages.antt =====
-- What the server sends for a request: at most one message, which is that of its one response.
use mathlib.Core.Path.{subst}
use lotus_dashboard.Common.{
  ◌≡◌, ◌⊎◌, inl, inr, refl, sym, ap, String, List, [], ◌∷◌, ◌++◌, Bool, false, Option, none, some,
  arith,
}
use lotus_dashboard.Common.Int.{ℤ}
use lotus_dashboard.Rpc.Message.{Bytes, Request, Response, Frame}
use lotus_dashboard.Rpc.Handler.{Action, rejected, finished, registered, written}
use lotus_dashboard.Rpc.Handler.Answers.{IsAnswer}
use lotus_dashboard.Rpc.Server.{body, outputs, output, rpc_error}
use lotus_dashboard.Rpc.Websocket.Routing.{Among, first, later}
use lotus_dashboard.Rpc.RoundTrip.{arriving}
use lotus_dashboard.Rpc.RoundTrip.Calls.{first_body}
use lotus_dashboard.Rpc.Link.{messages, message_of}

pub Among-cases :
    {A : Type 0} {a : A} (b : A) (bs : List A) → Among a (b ∷ bs) → (a ≡ b) ⊎ Among a bs
Among-cases b bs first = inl refl
Among-cases b bs (later m) = inr m

pub not-Among-nil : {A : Type 0} {a : A} → Among a [] → ⊥
not-Among-nil m = elim m [ ]

module _ {V : Type 0} (marshal : V → Option Bytes) where
  message_of-arriving :
      (r : Response V) (f : Frame V) → message_of marshal r ≡ some f → f ≡ arriving marshal r
  unfolding message_of
  message_of-arriving r f e = ground arith

  -- The message is that of the response.
  abbrev Says : Request V → List (Action V) → ℤ → Frame V → Type 0
  Says req as' n f =
      (r : Response V) × (first_body (outputs false req as') ≡ some r)
      × (r.id ≡ n)
      × (f ≡ arriving marshal r)

  only_message :
      (r : Response V) (f : Frame V)
      → Among (some f) (message_of marshal r ∷ [])
      → f ≡ arriving marshal r
  only_message r f m = elim (Among-cases _ _ m) [
    | inl e ↦ message_of-arriving r f (sym e)
    | inr n ↦ absurd (not-Among-nil n)
  ]

  -- The response of `rpcError`.
  abbrev pub error_response : ℤ → ℤ → String → Response V
  error_response n code t = record {
    jsonrpc = "2.0";
    result = none;
    id = n;
    error = some (record { code = code; message = t });
  }

  pub rpc_error-body :
      (req : Request V) (n code : ℤ) (t : String)
      → req.id ≡ some n
      → outputs false req (rejected code t ∷ finished false ∷ [])
        ≡ body (error_response n code t) ∷ []
  unfolding outputs output rpc_error
  rpc_error-body req n code t id = rw (id, rpc_error) refl

  pub messages-Says :
      (req : Request V) (n : ℤ) (as' : List (Action V)) (keep : Bool) (f : Frame V)
      → req.id ≡ some n
      → IsAnswer n as'
      → Among (some f) (messages marshal (outputs false req (as' ++ finished keep ∷ [])))
      → Says req (as' ++ finished keep ∷ []) n f
  unfolding messages outputs output rpc_error
  messages-Says req n (rejected code t ∷ []) keep f id a m =
      let r = error_response n code t in
      let sent : outputs false req (rejected code t ∷ finished keep ∷ []) ≡ body r ∷ [] =
        rpc_error-body req n code t id in
      (
        r,
        ap first_body sent,
        refl,
        only_message r f (subst (λ os. Among (some f) (messages marshal os)) sent m),
      )
  messages-Says req n (written r ∷ []) keep f id a m = (r, refl, a, only_message r f m)
  messages-Says req n (registered c ∷ written r ∷ []) keep f id a m =
      (r, refl, a, only_message r f m)
  messages-Says req n [] keep f id a m = elim a [ ]
  messages-Says req n (rejected code t ∷ b ∷ bs) keep f id a m = elim a [ ]
  messages-Says req n (written r ∷ b ∷ bs) keep f id a m = elim a [ ]
  messages-Says req n (finished k ∷ bs) keep f id a m = elim a [ ]
  messages-Says req n (registered c ∷ []) keep f id a m = elim a [ ]
  messages-Says req n (registered c ∷ rejected code t ∷ bs) keep f id a m = elim a [ ]
  messages-Says req n (registered c ∷ finished k ∷ bs) keep f id a m = elim a [ ]
  messages-Says req n (registered c ∷ registered d ∷ bs) keep f id a m = elim a [ ]
  messages-Says req n (registered c ∷ written r ∷ b ∷ bs) keep f id a m = elim a [ ]
