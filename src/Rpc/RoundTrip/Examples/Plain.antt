-- ===== src/Rpc/RoundTrip/Examples/Plain.antt =====
-- A remote call of a method that returns an error only, and refuses its parameter.
use lotus_dashboard.Common.{ℕ, ◌≡◌, refl, List, [], ◌∷◌, map, Bool, true, none, some, ok}
use lotus_dashboard.Common.Int.{pos}
use lotus_dashboard.Rpc.Util.{
  GoType, named, context_type, error_type, process_outs, process_func_out, unmarshal_json,
}
use lotus_dashboard.Rpc.Handler.{
  Reflect, Called, returned, panicked, Handlers, RpcHandler, make_handler, takes_context,
  receivers_of, call_params,
}
use lotus_dashboard.Rpc.Handler.Returns.{Decodes}
use lotus_dashboard.Rpc.Handler.Fails.{ReturnsError}
use lotus_dashboard.Rpc.Client.{
  error, made, make_rpc_func, make_request, make_params, make_param, arguments,
}
use lotus_dashboard.Rpc.Client.Plain.{just_error, plain_field}
use lotus_dashboard.Rpc.RoundTrip.Calls.{remote_call}
use lotus_dashboard.Rpc.RoundTrip.Plain.{remote_call-ReturnsError}
use lotus_dashboard.Rpc.RoundTrip.Examples.{decode_number, side, numbers, conn}

abbrev refuse : Bool → List ℕ → Called ℕ
refuse f (r ∷ c ∷ n ∷ []) = returned (n ∷ [])
refuse f args = panicked "reflect: Call with wrong arguments"

abbrev refusing : Reflect
refusing = record {
  Value = ℕ;
  Func = Bool;
  func_type = λ f. record {
    ins = named "Handler" ∷ context_type ∷ named "int" ∷ [];
    outs = error_type ∷ [];
  };
  func_text = λ f. "<func Value>";
  call = refuse;
  context_value = λ n. n;
  decode = decode_number;
  value_of = λ v. v;
  interface = λ v. some v;
  error_text = λ v. some "refused";
  is_chan = λ v. true;
}

abbrev refuse_handler : RpcHandler ℕ Bool
refuse_handler = record {
  param_receivers = named "int" ∷ [];
  n_params = 1;
  receiver = 0;
  handler_func = true;
  has_ctx = true;
  err_out = some 0;
  val_out = none;
}

abbrev table : Handlers refusing
table = ("Test.Check", refuse_handler) ∷ []

abbrev ins : List GoType
ins = context_type ∷ named "int" ∷ []

makes : make_handler refusing 0 true ≡ ok refuse_handler
unfolding make_handler process_func_out process_outs takes_context receivers_of
makes = refl

decodes :
    Decodes refusing
      (named "int" ∷ [])
      (map
        (λ p. p.bytes)
        (make_request side (just_error "Test" "Check" ins) (pos 0) 3 (5 ∷ 21 ∷ [])).params)
      (21 ∷ [])
unfolding make_request make_params make_param arguments unmarshal_json
decodes = ((_, refl, refl), tt)

refuses :
    ReturnsError refusing true (call_params refusing refuse_handler 8 (21 ∷ [])) (some "refused")
unfolding call_params
refuses = record { outs = refl; err = 21; called = refl; says = refl }

remote_call-ReturnsError_example :
    (make_rpc_func "Test" (plain_field "Check" ins) ≡ ok (made (just_error "Test" "Check" ins)))
    × (remote_call refusing side numbers table 8
          (λ n. n)
          (just_error "Test" "Check" ins)
          (pos 0)
          3
          (5 ∷ 21 ∷ [])
          0
          conn
        ≡ ok (error (some (record { code = pos 1; message = "refused" })) ∷ []))
remote_call-ReturnsError_example =
    remote_call-ReturnsError refusing side numbers table 8 (λ n. n) "Test" "Check" ins (pos 0) 3
      (5 ∷ 21 ∷ []) 0 conn 0 true refuse_handler (21 ∷ []) (some "refused") refl makes decodes
      refuses
