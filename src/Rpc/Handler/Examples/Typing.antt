-- ===== src/Rpc/Handler/Examples/Typing.antt =====
-- The two methods, called with arguments of the wrong types in another way.
use mathlib.Core.Path.{subst}
use lotus_dashboard.Common.{
  ℕ, ◌≡◌, refl, List, [], ◌∷◌, none, ok, arith, string_eq, ◌==◌, if◌then◌else◌, All, Bool, true,
  false,
}
use lotus_dashboard.Rpc.Message.{Bytes}
use lotus_dashboard.Rpc.Util.{GoType, named, context_type, process_outs, process_func_out}
use lotus_dashboard.Rpc.Handler.{
  Reflect, Decoded, decoded, undecodable, Called, panicked, make_handler, register, takes_context,
  receivers_of, handle,
}
use lotus_dashboard.Rpc.Handler.Typing.{IsTyped, Fits, Decodable}
use lotus_dashboard.Rpc.Handler.Calling.{calling, handle-Fits}
use lotus_dashboard.Rpc.Handler.Examples.{
  Val, num, channel, failure, ctx, Method, add_one, subscribe, method_type, run, decode_number, go,
  methods, table, addition,
}

abbrev is_int : GoType → Bool
is_int (GoType.named s) = s == "int"
is_int t = false

abbrev decode_int : GoType → Bytes → Decoded Val
decode_int t b = if is_int t then decode_number t b else undecodable "unexpected type"

abbrev typed : Reflect
typed = record go { decode = decode_int }

data HasType : Val → GoType → Type 0 where
  int : {n : ℕ} {t : GoType} → is_int t ≡ true → HasType (num n) t
  handler : HasType (num 0) (named "Handler")
  context : {n : ℕ} → HasType (ctx n) context_type

decode_number_lem :
    (t : GoType) (b : Bytes) (v : Val)
    → is_int t ≡ true
    → decode_number t b ≡ decoded v
    → HasType v t
decode_number_lem t [] v i e = absurd (ground arith)
decode_number_lem t (n ∷ []) v i e = subst (λ x. HasType x t) {x = num n} (ground arith) (int i)
decode_number_lem t (n ∷ m ∷ b) v i e = absurd (ground arith)

int-Decodable : Decodable typed HasType (named "int")
int-Decodable b v e = decode_number_lem (named "int") b v refl e

typed-IsTyped : IsTyped typed HasType
typed-IsTyped n = context

-- Another way to call: a number for a context makes it panic.
abbrev strict : Method → List Val → Called Val
strict subscribe (r ∷ num n ∷ []) = panicked "reflect: Call using int as type context.Context"
strict f args = run f args

int_is_no_context : (n : ℕ) → ¬ HasType (num n) context_type
int_is_no_context n (int e) = absurd (ground arith)

agrees :
    (f : Method) (args : List Val)
    → Fits typed HasType args (method_type f).ins
    → run f args ≡ strict f args
agrees add_one args w = refl
agrees subscribe [] w = refl
agrees subscribe (r ∷ []) w = refl
agrees subscribe (r ∷ num n ∷ []) w = absurd (int_is_no_context n w.1.0)
agrees subscribe (r ∷ channel n ∷ []) w = refl
agrees subscribe (r ∷ failure e ∷ []) w = refl
agrees subscribe (r ∷ ctx n ∷ []) w = refl
agrees subscribe (r ∷ v ∷ u ∷ vs) w = absurd w.1.1

registers : register typed "Test" (num 0) methods [] ≡ ok table
unfolding register make_handler process_func_out process_outs takes_context receivers_of
registers = refl

receives : All (Decodable typed HasType) (
    receivers_of typed
      (takes_context typed (named "Handler" ∷ named "int" ∷ []))
      (named "Handler" ∷ named "int" ∷ []))
unfolding receivers_of takes_context
receives = (int-Decodable, tt)

subscribe_receives : All (Decodable typed HasType) (
    receivers_of typed
      (takes_context typed (named "Handler" ∷ context_type ∷ []))
      (named "Handler" ∷ context_type ∷ []))
unfolding receivers_of takes_context
subscribe_receives = tt

handle-Fits_example :
    handle (calling typed strict) table 1 addition none ≡ handle typed table 1 addition none
handle-Fits_example =
    handle-Fits typed HasType strict agrees "Test" (num 0) methods table 1 addition none
      typed-IsTyped
      ((_, _, refl, handler, receives), ((_, _, refl, handler, subscribe_receives), tt)) registers
