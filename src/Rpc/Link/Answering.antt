-- ===== src/Rpc/Link/Answering.antt =====
-- What a websocket carries for a request: one message, and its handler is done once.
use mathlib.Core.Path.{subst}
use lotus_dashboard.Common.{
  ℕ, suc, ◌≡◌, refl, sym, ap, List, [], ◌∷◌, ◌++◌, Bool, false, Option, none, some,
}
use lotus_dashboard.Common.Int.{ℤ}
use lotus_dashboard.Rpc.Message.{Bytes, Request, Response}
use lotus_dashboard.Rpc.Handler.{
  Reflect, Handlers, Action, rejected, finished, registered, written, handle,
}
use lotus_dashboard.Rpc.Handler.Answers.{IsAnswer, ReturnsOutputs, handle-IsServed}
use lotus_dashboard.Rpc.Handler.Tables.{IsTable}
use lotus_dashboard.Rpc.Server.{outputs, output}
use lotus_dashboard.Rpc.Link.{messages, message_of}
use lotus_dashboard.Rpc.Link.Messages.{error_response, rpc_error-body}

-- How often `done` is called.
abbrev pub dones : {V : Type 0} → List (Action V) → ℕ
dones [] = 0
dones (finished keep ∷ as') = suc (dones as')
dones (a ∷ as') = dones as'

module _ {V : Type 0} (marshal : V → Option Bytes) (req : Request V) (n : ℤ)
    (id : req.id ≡ some n) where
  -- The one message of a handler's actions.
  abbrev pub OneMessage : List (Action V) → Type 0
  OneMessage as' =
      (r : Response V) × (r.id ≡ n)
      × (messages marshal (outputs false req as') ≡ message_of marshal r ∷ [])
      × (dones as' ≡ 1)

  IsAnswer-OneMessage :
      (as' : List (Action V)) (keep : Bool)
      → IsAnswer n as'
      → OneMessage (as' ++ finished keep ∷ [])
  unfolding messages outputs output
  IsAnswer-OneMessage (rejected code t ∷ []) keep a = (
    error_response marshal n code t,
    refl,
    ap (messages marshal) (rpc_error-body marshal req n code t id),
    refl,
  )
  IsAnswer-OneMessage (written r ∷ []) keep a = (r, a, refl, refl)
  IsAnswer-OneMessage (registered c ∷ written r ∷ []) keep a = (r, a, refl, refl)
  IsAnswer-OneMessage [] keep a = elim a [ ]
  IsAnswer-OneMessage (rejected code t ∷ b ∷ bs) keep a = elim a [ ]
  IsAnswer-OneMessage (written r ∷ b ∷ bs) keep a = elim a [ ]
  IsAnswer-OneMessage (finished k ∷ bs) keep a = elim a [ ]
  IsAnswer-OneMessage (registered c ∷ []) keep a = elim a [ ]
  IsAnswer-OneMessage (registered c ∷ rejected code t ∷ bs) keep a = elim a [ ]
  IsAnswer-OneMessage (registered c ∷ finished k ∷ bs) keep a = elim a [ ]
  IsAnswer-OneMessage (registered c ∷ registered d ∷ bs) keep a = elim a [ ]
  IsAnswer-OneMessage (registered c ∷ written r ∷ b ∷ bs) keep a = elim a [ ]

module _ (go : Reflect) (marshal : go.Value → Option Bytes) where
  open go use {Value}

  -- If calls through reflect return as many results as their functions have outputs: at a table
  -- whose entries are well-formed, for a request with an id over a websocket, and whatever it asks
  -- for and however the method ends, `handle` panics nowhere, calls `done` once, and makes one
  -- message: that of one response with this id, an error or what the method returned; the message
  -- is without content where the result of that response cannot be encoded.
  pub handle-messages :
      (hs : Handlers go) (ctx : ℕ) (req : Request Value) (f : Value → Value) (n : ℤ)
      → ReturnsOutputs go
      → IsTable go hs
      → (id : req.id ≡ some n)
      → OneMessage marshal req n id (handle go hs ctx req (some f)).actions
        × ((handle go hs ctx req (some f)).failed ≡ none)
  handle-messages hs ctx req f n returns t id =
      let (as', keep, e, a, ended) = handle-IsServed go returns hs ctx req f n t id in
      (
        subst (OneMessage marshal req n id) (sym e)
            (IsAnswer-OneMessage marshal req n id as' keep a),
        ended,
      )
