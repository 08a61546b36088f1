-- ===== src/Rpc/Handler/Http.antt =====
-- How `handle` answers over plain HTTP, where there are no output channels.
use mathlib.Core.Path.{subst}
use lotus_dashboard.Common.{
  ℕ, ◌≡◌, refl, sym, inl, inr, [], ◌∷◌, true, false, none, some, ok, arith, length, Option-cases,
  Bool-cases, Result-cases, string_eq, ◌==◌, nat_eq,
}
use lotus_dashboard.Common.Int.{ℤ}
use lotus_dashboard.Common.Dict.{lookup}
use lotus_dashboard.Rpc.Message.{Request}
use lotus_dashboard.Rpc.Handler.{
  Reflect, RpcHandler, Handlers, rejected, handle, handle_found, out_channel, lacks_channels,
}
use lotus_dashboard.Rpc.Handler.Answers.{
  ReturnsOutputs, IsServed, handle-IsServed, out_channel-is_ok,
}
use lotus_dashboard.Rpc.Handler.Modes.{NoChannels, handle-same}
use lotus_dashboard.Rpc.Handler.Tables.{IsTable}

module _ (go : Reflect) (hs : Handlers go) (req : Request go.Value) where
  open go use {Value, Func}

  -- The method that is asked for gives a channel only if it is declared with one.
  abbrev pub HidesNone : Type 0
  HidesNone =
      (h : RpcHandler Value Func)
      → lookup req.method hs ≡ some h
      → out_channel go h ≡ ok false
      → NoChannels go h.handler_func

module _ (go : Reflect) (returns_outputs : ReturnsOutputs go) (hs : Handlers go)
    (table : IsTable go hs) (req : Request go.Value) where
  open go use {Value, Func}

  same_as_ws :
      (ctx : ℕ) (n : ℤ) (h : RpcHandler Value Func)
      → req.id ≡ some n
      → lookup req.method hs ≡ some h
      → out_channel go h ≡ ok false
      → NoChannels go h.handler_func
      → IsServed n (handle go hs ctx req none)
  same_as_ws ctx n h id found plain hidden =
      subst (IsServed n)
        (sym (
          handle-same go hs ctx req (λ v. v)
            (λ h' found'.
              let same : h ≡ h' = ground arith in
              subst (λ k. (out_channel go k ≡ ok false) × NoChannels go k.handler_func) same
                (plain, hidden))))
        (handle-IsServed go returns_outputs hs ctx req (λ v. v) n table id)

  pub handle_http-IsServed :
      (ctx : ℕ) (n : ℤ)
      → HidesNone go hs req
      → req.id ≡ some n
      → IsServed n (handle go hs ctx req none)
  unfolding handle handle_found lacks_channels
  handle_http-IsServed ctx n hidden id = elim (Option-cases (lookup req.method hs)) [
    | inl missing ↦ rw (missing, handle) (rejected _ _ ∷ [], false, refl, tt, refl)
    | inr (h, found) ↦ elim (Bool-cases (length req.params == h.n_params)) [
      | inr wrong ↦ rw (found, wrong, handle) (rejected _ _ ∷ [], false, refl, tt, refl)
      | inl count ↦ elim (Result-cases (out_channel go h)) [
        | inr (e, p) ↦
            absurd
              (ground (arith, out_channel-is_ok go returns_outputs h (table req.method h found)))
        | inl (true, p) ↦
            rw (found, count, handle)
              (rw (p, handle_found) (rejected _ _ ∷ [], true, refl, tt, refl))
        | inl (false, p) ↦ same_as_ws ctx n h id found p (hidden h found p)
      ]
    ]
  ]
