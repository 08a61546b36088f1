-- ===== src/Rpc/Client/Plain.antt =====
-- A field whose function has an error as its only result.
use lotus_dashboard.Common.{
  ◌≡◌, refl, String, List, [], ◌∷◌, false, Option, none, some, ok, beq_refl,
}
use lotus_dashboard.Common.Int.{ℤ, int_eq}
use lotus_dashboard.Rpc.Util.{GoType, error_type, process_func_out, process_outs}
use lotus_dashboard.Rpc.Message.{RespError, own}
use lotus_dashboard.Rpc.Client.{
  ClientSide, RpcFunc, Field, func, made, error, make_for, make_rpc_func, first_is_context,
  returns_chan, answered, finish_call, finish_answer, finish_plain, dereference, put,
}

-- The function that a field with an error and no value becomes.
abbrev pub just_error : String → String → List GoType → RpcFunc
just_error namespace name ins = record {
  namespace = namespace;
  ftyp = record { ins = ins; outs = error_type ∷ [] };
  name = name;
  nout = 1;
  val_out = none;
  err_out = some 0;
  has_ctx = first_is_context ins;
  ret_ch = false;
}

abbrev pub plain_field : String → List GoType → Field
plain_field name ins = record {
  name = name;
  type = func (record { ins = ins; outs = error_type ∷ [] });
}

pub becomes_plain :
    (namespace name : String) (ins : List GoType)
    → make_rpc_func namespace (plain_field name ins) ≡ ok (made (just_error namespace name ins))
unfolding make_rpc_func make_for process_func_out process_outs returns_chan
becomes_plain namespace name ins = refl

pub finish_call-plain :
    {V : Type 0} (cs : ClientSide V) (namespace name : String) (ins : List GoType) (id loop : ℤ)
    (chan : V) (e : Option RespError)
    → finish_call cs
        (just_error namespace name ins)
        id
        loop
        chan
        (answered (record { jsonrpc = "2.0"; result = none; id = own id; error = e }))
      ≡ ok (error e ∷ [])
unfolding finish_call dereference finish_answer finish_plain put
finish_call-plain cs namespace name ins id loop chan e = rw (beq_refl id) refl
