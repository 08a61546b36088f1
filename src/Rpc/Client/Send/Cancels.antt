-- ===== src/Rpc/Client/Send/Cancels.antt =====
-- What `sendRequest` hands to the connection's loop when the caller's context ends.
use lotus_dashboard.Common.{
  ℕ, ◌≡◌, ◌⊎◌, inl, inr, refl, List, [], ◌∷◌, Bool, true, false, Option, some, fault, arith,
  nil_dereference,
}
use lotus_dashboard.Common.Int.{ℤ}
use lotus_dashboard.Rpc.Message.{Request}
use lotus_dashboard.Rpc.Websocket.{Sink, ClientRequest, WsConn}
use lotus_dashboard.Rpc.Websocket.Loop.{requested, loop_step, take_request}
use lotus_dashboard.Rpc.Websocket.{Json}
use lotus_dashboard.Rpc.Client.Send.{
  Awaited, answer, context_done, Exchange, cancel_request, await, send_request,
}

module _ {V : Type 0} (pv : Option ℤ → V) where
  -- Nothing, or one cancellation.
  abbrev AtMostOne : Option ℤ → List (ClientRequest V) → Type 0
  AtMostOne id rs = (rs ≡ []) ⊎ (rs ≡ cancel_request pv id ∷ [])

  await_unwatched : (id : Option ℤ) (es : List Awaited) → (await pv id false es).taken ≡ []
  unfolding await
  await_unwatched id [] = refl
  await_unwatched id (answer r ∷ es) = refl
  await_unwatched id (context_done t ∷ es) = await_unwatched id es

  await-AtMostOne :
      (id : Option ℤ) (w : Bool) (es : List Awaited) → AtMostOne id (await pv id w es).taken
  unfolding await
  await-AtMostOne id w [] = inl refl
  await-AtMostOne id w (answer r ∷ es) = inl refl
  await-AtMostOne id true (context_done true ∷ es) = inr (rw (await_unwatched id es))
  await-AtMostOne id true (context_done false ∷ es) = inl (await_unwatched id es)
  await-AtMostOne id false (context_done t ∷ es) = inl (await_unwatched id es)

  -- Whatever happens during a call, the loop is handed the request and at most one more, the
  -- cancellation. A loop that takes the cancellation panics, in every state: the cancellation has
  -- no id, and the loop reads the id through the nil pointer.
  pub send_request-cancels :
      (js : Json V) (req : Request V) (ready : ℕ) (ret : Option Sink) (w : Bool) (es : List Awaited)
      (written : Bool) (c : WsConn V) (x : Exchange V)
      → send_request pv req ready ret true w es ≡ some x
      → let first : ClientRequest V = record { req = req; ready = some ready; ret_ch = ret } in
        ((x.taken ≡ first ∷ []) ⊎ (x.taken ≡ first ∷ cancel_request pv req.id ∷ []))
        × (loop_step js c (requested (cancel_request pv req.id) written) ≡ fault nil_dereference)
  unfolding send_request cancel_request loop_step take_request
  send_request-cancels js req ready ret w es written c x e =
      (ground (arith, await-AtMostOne req.id w es), refl)
