-- ===== src/Rpc/Handler/Tables.antt =====
-- The table of methods that `register` builds.
use mathlib.Core.Path.{subst}
use lotus_dashboard.Common.{
  ◌≡◌, refl, sym, ◌∙◌, All, inl, inr, String, List, [], ◌∷◌, some, ok, >>=-eq-ok, arith, length,
  Bool-cases, string_eq, ◌==◌,
}
use lotus_dashboard.Common.Dict.{lookup, insert, lookup-insert}
use lotus_dashboard.Rpc.Util.{process_func_out}
use lotus_dashboard.Rpc.Util.Outputs.{InRange, process_func_out-Describes}
use lotus_dashboard.Rpc.Handler.{Reflect, RpcHandler, Handlers, make_handler, register}

some_inj : {A : Type 0} {a b : A} → some a ≡ some b → a ≡ b
some_inj e = cc

module _ (go : Reflect) where
  open go use {Value, Func, func_type}

  -- What `handle` relies on in an entry of the table.
  pub record IsWellFormed (h : RpcHandler Value Func) : Type 0 where
    pub arity : length h.param_receivers ≡ h.n_params
    pub value_in_range : InRange (length (func_type h.handler_func).outs) h.val_out
    pub error_in_range : InRange (length (func_type h.handler_func).outs) h.err_out

  -- Every entry has a property.
  abbrev pub Entries : (RpcHandler Value Func → Type 0) → Handlers go → Type 0
  Entries P hs = (k : String) (h : RpcHandler Value Func) → lookup k hs ≡ some h → P h

  abbrev pub IsTable : Handlers go → Type 0
  IsTable = Entries IsWellFormed

  pub make_handler-IsWellFormed :
      (val : Value) (f : Func) (h : RpcHandler Value Func)
      → make_handler go val f ≡ ok h
      → IsWellFormed h
  unfolding make_handler
  make_handler-IsWellFormed val f h e =
      let (out, p, q) = >>=-eq-ok (process_func_out (func_type f)) _ e in
      ground (arith, process_func_out-Describes (func_type f) out p)

  module _ {P : RpcHandler Value Func → Type 0} where
    insert-Entries :
        (name : String) (h : RpcHandler Value Func) (hs : Handlers go)
        → P h
        → Entries P hs
        → Entries P (insert name h hs)
    insert-Entries name h hs w t k g e = elim (Bool-cases (name == k)) [
      | inl hit ↦ subst P (some_inj (sym (rw (lookup-insert, hit) refl) ∙ e)) w
      | inr miss ↦ t k g (rw (lookup-insert, miss) at e)
    ]

    -- What the entry of each method has, the table has.
    pub register-Entries :
        (namespace : String) (val : Value) (ms : List (String × Func)) (hs hs' : Handlers go)
        → All (λ m. (h : RpcHandler Value Func) → make_handler go val m.1 ≡ ok h → P h) ms
        → Entries P hs
        → register go namespace val ms hs ≡ ok hs'
        → Entries P hs'
    unfolding register
    register-Entries namespace val [] hs hs' a t e = subst (Entries P) (ground arith) t
    register-Entries namespace val ((name, f) ∷ ms) hs hs' a t e =
        let (h, p, q) = >>=-eq-ok (make_handler go val f) _ e in
        register-Entries namespace val ms _ hs' a.1 (insert-Entries _ h hs (a.0 h p) t) q

  every_method :
      (val : Value) (ms : List (String × Func))
      → All (λ m. (h : RpcHandler Value Func) → make_handler go val m.1 ≡ ok h → IsWellFormed h) ms
  every_method val [] = tt
  every_method val ((name, f) ∷ ms) = (make_handler-IsWellFormed val f, every_method val ms)

  -- `register` keeps every entry of the table fit for `handle`: as many receivers as counted
  -- parameters, and result indices that the method's outputs have.
  pub register-IsTable :
      (namespace : String) (val : Value) (ms : List (String × Func)) (hs hs' : Handlers go)
      → IsTable hs
      → register go namespace val ms hs ≡ ok hs'
      → IsTable hs'
  register-IsTable namespace val ms hs hs' =
      register-Entries namespace val ms hs hs' (every_method val ms)
