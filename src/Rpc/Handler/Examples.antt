-- ===== src/Rpc/Handler/Examples.antt =====
-- A table of two methods, and what `handle` answers.
mod Typing
use mathlib.Core.Path.{subst}
use lotus_dashboard.Common.{
  ℕ, zero, suc, ◌+◌, ◌≡◌, refl, sym, ap, ◌∙◌, get_elem?, string_eq, String, List, [], ◌∷◌, Bool,
  true, false, Option, none, some, ok, length, arith,
}
use lotus_dashboard.Common.Int.{pos}
use lotus_dashboard.Common.Dict.{lookup}
use lotus_dashboard.Rpc.Message.{Bytes, Request}
use lotus_dashboard.Rpc.Util.{
  GoType, FuncType, named, context_type, error_type, chan_type, process_outs, process_func_out,
}
use lotus_dashboard.Rpc.Handler.{
  Reflect, Decoded, decoded, undecodable, Called, returned, panicked, Handlers, RpcHandler,
  make_handler, register, takes_context, receivers_of, handle, out_channel, chan_at,
}
use lotus_dashboard.Rpc.Handler.Tables.{IsTable, register-IsTable}
use lotus_dashboard.Rpc.Handler.Modes.{NoChannels, handle-same}
use lotus_dashboard.Rpc.Handler.Answers.{ReturnsOutputs, IsServed, handle-IsServed}

data Val : Type 0 where
  num : ℕ → Val
  channel : ℕ → Val
  failure : Option String → Val
  ctx : ℕ → Val

-- A method that adds one, and one that gives a channel.
data Method : Type 0 where
  add_one subscribe : Method

abbrev method_type : Method → FuncType
method_type add_one = record {
  ins = named "Handler" ∷ named "int" ∷ [];
  outs = named "int" ∷ error_type ∷ [];
}
method_type subscribe = record {
  ins = named "Handler" ∷ context_type ∷ [];
  outs = chan_type (named "int") ∷ error_type ∷ [];
}

abbrev run : Method → List Val → Called Val
run add_one (r ∷ num n ∷ []) = returned (num (n + 1) ∷ failure none ∷ [])
run subscribe (r ∷ c ∷ []) = returned (channel 3 ∷ failure none ∷ [])
run f args = panicked "reflect: Call with wrong arguments"

abbrev decode_number : GoType → Bytes → Decoded Val
decode_number t (n ∷ []) = decoded (num n)
decode_number t b = undecodable "unexpected end of JSON input"

abbrev some_value : Val → Option Val
some_value v = some v

abbrev failure_text : Val → Option String
failure_text (failure e) = e
failure_text v = none

abbrev is_channel : Val → Bool
is_channel (channel n) = true
is_channel v = false

abbrev go : Reflect
go = record {
  Value = Val;
  Func = Method;
  func_type = method_type;
  func_text = λ f. "<func Value>";
  call = run;
  context_value = ctx;
  decode = decode_number;
  value_of = λ v. v;
  interface = some_value;
  error_text = failure_text;
  is_chan = is_channel;
}

run_lem :
    (f : Method) (args out : List Val)
    → run f args ≡ returned out
    → length out ≡ length (method_type f).outs
run_lem add_one [] out e = absurd (ground arith)
run_lem add_one (r ∷ []) out e = absurd (ground arith)
run_lem add_one (r ∷ num n ∷ []) out e = ground arith
run_lem add_one (r ∷ v ∷ vs) out e = ground arith
run_lem subscribe [] out e = absurd (ground arith)
run_lem subscribe (r ∷ []) out e = absurd (ground arith)
run_lem subscribe (r ∷ c ∷ []) out e = ground arith
run_lem subscribe (r ∷ c ∷ v ∷ vs) out e = absurd (ground arith)

run-ReturnsOutputs : ReturnsOutputs go
run-ReturnsOutputs f args out e = run_lem f args out e

abbrev methods : List (String × Method)
methods = ("AddOne", add_one) ∷ ("Subscribe", subscribe) ∷ []

abbrev add_one_handler : RpcHandler Val Method
add_one_handler = record {
  param_receivers = named "int" ∷ [];
  n_params = 1;
  receiver = num 0;
  handler_func = add_one;
  has_ctx = false;
  err_out = some 1;
  val_out = some 0;
}

abbrev subscribe_handler : RpcHandler Val Method
subscribe_handler = record {
  param_receivers = [];
  n_params = 0;
  receiver = num 0;
  handler_func = subscribe;
  has_ctx = true;
  err_out = some 1;
  val_out = some 0;
}

abbrev table : Handlers go
table = ("Test.AddOne", add_one_handler) ∷ ("Test.Subscribe", subscribe_handler) ∷ []

registers : register go "Test" (num 0) methods [] ≡ ok table
unfolding register make_handler process_func_out process_outs takes_context receivers_of
registers = refl

none-IsTable : IsTable go []
none-IsTable k h e = absurd (ground arith)

abbrev subscription : Request Val
subscription = record {
  jsonrpc = "2.0";
  id = some (pos 4);
  method = "Test.Subscribe";
  params = [];
  meta = none;
}

abbrev addition : Request Val
addition = record {
  jsonrpc = "2.0";
  id = some (pos 5);
  method = "Test.AddOne";
  params = record { bytes = 6 ∷ []; value = none } ∷ [];
  meta = none;
}

add_one_lem :
    (args out : List Val)
    → run add_one args ≡ returned out
    → (n : ℕ) × (out ≡ num n ∷ failure none ∷ [])
add_one_lem [] out e = absurd (ground arith)
add_one_lem (r ∷ []) out e = absurd (ground arith)
add_one_lem (r ∷ num n ∷ []) out e = (n + 1, ground arith)
add_one_lem (r ∷ v ∷ vs) out e = absurd (ground arith)

add_one-NoChannels : NoChannels go add_one
add_one-NoChannels args out i v w e g s =
    let (n, o) = add_one_lem args out e in plain n i w (sym (ap (λ l. get_elem? l i) o) ∙ g ∙ s)
  where
    plain :
        (n i : ℕ) (v : Val)
        → get_elem? (num n ∷ failure none ∷ []) i ≡ some v
        → is_channel v ≡ false
    plain n zero v g = ground arith
    plain n (suc zero) v g = ground arith
    plain n (suc (suc i)) v g = absurd (ground arith)

adds_only :
    (h : RpcHandler Val Method)
    → lookup addition.method table ≡ some h
    → (out_channel go h ≡ ok false) × NoChannels go h.handler_func
unfolding out_channel chan_at
adds_only h e =
    subst (λ k. (out_channel go k ≡ ok false) × NoChannels go k.handler_func) {x = add_one_handler}
      (some_inj e) (refl, add_one-NoChannels)
  where
    some_inj :
        {a b : RpcHandler Val Method}
        → ◌≡◌ {A = Option (RpcHandler Val Method)} (some a) (some b)
        → a ≡ b
    some_inj f = cc

handle-same_example :
    handle go table 1 addition none ≡ handle go table 1 addition (some (λ v. num 9))
handle-same_example = handle-same go table 1 addition (λ v. num 9) adds_only
