-- ===== src/Rpc/Handler/Typing.antt =====
-- The types of what `handle` passes to a method: reflect panics where they do not fit.
use mathlib.Core.Path.{subst}
use lotus_dashboard.Common.{
  ℕ, zero, suc, ◌≡◌, refl, sym, ◌∙◌, ap, ◌⊎◌, inl, inr, String, List, [], ◌∷◌, Bool, true, false,
  some, Result, ok, >>=-eq-ok, >>=-step, arith, length, string_eq, All, nat_eq, if◌then◌else◌,
}
use lotus_dashboard.Common.Dict.{lookup}
use lotus_dashboard.Rpc.Message.{Param, Bytes}
use lotus_dashboard.Rpc.Util.{GoType, context_type, is_context_type, process_func_out}
use lotus_dashboard.Rpc.Handler.Tables.{register-IsTable}
use lotus_dashboard.Rpc.Handler.{
  Reflect, RpcHandler, Handlers, Decoded, decoded, undecodable, make_handler, register,
  takes_context, receivers_of, call_params, decode_params,
}

ok_inj : {A : Type 0} {a b : A} → ◌≡◌ {A = Result A} (ok a) (ok b) → a ≡ b
ok_inj e = cc

pub Decoded-cases :
    {A : Type 0} (d : Decoded A)
    → ((a : A) × (d ≡ decoded a)) ⊎ ((e : String) × (d ≡ undecodable e))
Decoded-cases (decoded a) = inl (a, refl)
Decoded-cases (undecodable e) = inr (e, refl)

decoded_inj : {A : Type 0} {a b : A} → ◌≡◌ {A = Decoded A} (decoded a) (decoded b) → a ≡ b
decoded_inj e = cc

context_type_lem : (t : GoType) → is_context_type t ≡ true → t ≡ context_type
context_type_lem GoType.context_type e = refl
context_type_lem GoType.error_type e = absurd (ground arith)
context_type_lem (GoType.chan_type t) e = absurd (ground arith)
context_type_lem (GoType.named s) e = absurd (ground arith)

-- `HasType` says which values can be assigned to a type.
module _ (go : Reflect) (HasType : go.Value → GoType → Type 0) where
  open go use {Value, Func, func_type, context_value, decode, value_of}

  -- Values that fit a list of types, one by one.
  abbrev pub Fits : List Value → List GoType → Type 0
  Fits [] [] = Unit
  Fits (v ∷ vs) (t ∷ ts) = HasType v t × Fits vs ts
  Fits _ _ = ⊥

  -- What decodes into the type is passed as a value of it. Of an interface type this does not hold,
  -- since null is passed as no Value.
  abbrev pub Decodable : GoType → Type 0
  Decodable t = (b : Bytes) (v : Value) → decode t b ≡ decoded v → HasType (value_of v) t

  -- A context is a context.
  abbrev pub IsTyped : Type 0
  IsTyped = (ctx : ℕ) → HasType (context_value ctx) context_type

  -- The function of a method has the value's type as its first input, and its parameters are of
  -- types that are passed as what they decode to.
  abbrev pub IsMethodOf : Value → String × Func → Type 0
  IsMethodOf val m =
      (r : GoType) × (ts : List GoType) × ((func_type m.1).ins ≡ r ∷ ts)
      × HasType val r
      × All Decodable (receivers_of go (takes_context go (r ∷ ts)) (r ∷ ts))

  -- An entry whose parameters, once decoded, complete what its function takes.
  abbrev pub Completes : RpcHandler Value Func → Type 0
  Completes h =
      All Decodable h.param_receivers
      × ((ctx : ℕ) (vs : List Value)
          → Fits vs h.param_receivers
          → Fits (call_params go h ctx vs) (func_type h.handler_func).ins)

  -- What a function with these inputs takes is complete.
  completes_with_context :
      (b : Bool) (val : Value) (ctx : ℕ) (vs : List Value) (r t : GoType) (ts : List GoType)
      → IsTyped
      → is_context_type t ≡ b
      → HasType val r
      → Fits vs (receivers_of go b (r ∷ t ∷ ts))
      → Fits (val ∷ (if b then context_value ctx ∷ vs else vs)) (r ∷ t ∷ ts)
  unfolding receivers_of
  completes_with_context true val ctx vs r t ts y e h d =
      (h, (subst (HasType (context_value ctx)) (sym (context_type_lem t e)) (y ctx), d))
  completes_with_context false val ctx vs r t ts y e h d = (h, d)

  completes_from :
      (val : Value) (ctx : ℕ) (vs : List Value) (r : GoType) (ts : List GoType)
      → IsTyped
      → HasType val r
      → Fits vs (receivers_of go (takes_context go (r ∷ ts)) (r ∷ ts))
      → Fits (val ∷ (if takes_context go (r ∷ ts) then context_value ctx ∷ vs else vs)) (r ∷ ts)
  unfolding takes_context receivers_of
  completes_from val ctx vs r [] y h d = (h, d)
  completes_from val ctx vs r (t ∷ ts) y h d =
      completes_with_context (is_context_type t) val ctx vs r t ts y refl h d

  make_handler-Completes :
      (val : Value) (name : String) (f : Func)
      → IsTyped
      → IsMethodOf val (name, f)
      → (h : RpcHandler Value Func) → make_handler go val f ≡ ok h
      → Completes h
  unfolding make_handler call_params
  make_handler-Completes val name f y (r, ts, i, t, ds) h e =
      let (out, p, q) = >>=-eq-ok (process_func_out (func_type f)) _ e in
      subst Completes (ok_inj q) (
        subst (λ ins. All Decodable (receivers_of go (takes_context go ins) ins)) (sym i) ds,
        λ ctx vs.
            subst
              (λ ins.
                Fits vs (receivers_of go (takes_context go ins) ins)
                → Fits (val ∷ (if takes_context go ins then context_value ctx ∷ vs else vs)) ins)
              (sym i) (completes_from val ctx vs r ts y t),
      )

  pub every_method :
      (val : Value) (ms : List (String × Func))
      → IsTyped
      → All (IsMethodOf val) ms
      → All (λ m. (h : RpcHandler Value Func) → make_handler go val m.1 ≡ ok h → Completes h) ms
  every_method val [] y a = tt
  every_method val ((name, f) ∷ ms) y a =
      (make_handler-Completes val name f y a.0, every_method val ms y a.1)

  pub decode_params-Fits :
      (n : ℕ) (ts : List GoType) (ps : List (Param Value)) (vs : List Value)
      → All Decodable ts
      → length ts ≡ n
      → decode_params go n ts ps ≡ ok (decoded vs)
      → Fits vs ts
  unfolding decode_params
  decode_params-Fits zero [] ps vs y l e = subst (λ x. Fits x []) (decoded_inj (ok_inj e)) tt
  decode_params-Fits zero (t ∷ ts) ps vs y l e = absurd (omega arith)
  decode_params-Fits (suc n) [] ps vs y l e = absurd (omega arith)
  decode_params-Fits (suc n) (t ∷ ts) [] vs y l e = absurd (ground arith)
  decode_params-Fits (suc n) (t ∷ ts) (p ∷ ps) vs y l e = elim (Decoded-cases (decode t p.bytes)) [
    | inr (x, c) ↦ absurd (ground arith)
    | inl (v, c) ↦ >>=-step (decode_params go n ts ps) _ (rw (c, decode_params) at e) λ r q s.
        elim (Decoded-cases r) [
          | inr (x, d) ↦ absurd (ground arith)
          | inl (us, d) ↦
              subst (λ x. Fits x (t ∷ ts)) {x = value_of v ∷ us} (ground arith)
                (y.0 p.bytes v c, decode_params-Fits n ts ps us y.1 (omega arith) (q ∙ ap ok d))
        ]
  ]

  pub arity_of :
      (namespace : String) (val : Value) (ms : List (String × Func)) (hs : Handlers go)
      (h : RpcHandler Value Func) (name : String)
      → register go namespace val ms [] ≡ ok hs
      → lookup name hs ≡ some h
      → length h.param_receivers ≡ h.n_params
  arity_of namespace val ms hs h name built found =
      (register-IsTable go namespace val ms [] hs (λ k g e. absurd (ground arith)) built name h
        found).arity
