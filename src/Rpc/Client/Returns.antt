-- ===== src/Rpc/Client/Returns.antt =====
-- What a call gives back for an answer with a result.
use lotus_dashboard.Common.{
  ◌≡◌, refl, String, List, [], ◌∷◌, false, Option, none, some, ok, beq_refl,
}
use lotus_dashboard.Common.Int.{ℤ, int_eq}
use lotus_dashboard.Rpc.Message.{Bytes, own, RespError}
use lotus_dashboard.Rpc.Util.{GoType, error_type, is_chan_type, process_func_out, process_outs}
use lotus_dashboard.Rpc.Handler.{decoded}
use lotus_dashboard.Rpc.Client.{
  ClientSide, Field, func, RpcFunc, made, value, error, make_for, make_rpc_func, first_is_context,
  returns_chan, put, process_response, dereference, answered, finish_call, finish_answer,
  finish_value, result_value,
}

-- The function that a field with a value and an error becomes.
abbrev pub with_error : String → String → List GoType → GoType → RpcFunc
with_error namespace name ins t = record {
  namespace = namespace;
  ftyp = record { ins = ins; outs = t ∷ error_type ∷ [] };
  name = name;
  nout = 2;
  val_out = some 0;
  err_out = some 1;
  has_ctx = first_is_context ins;
  ret_ch = false;
}

abbrev pub field_of : String → List GoType → GoType → Field
field_of name ins t = record {
  name = name;
  type = func (record { ins = ins; outs = t ∷ error_type ∷ [] });
}

pub make_rpc_func_lem :
    (namespace name : String) (ins : List GoType) (t : GoType)
    → is_chan_type t ≡ false
    → make_rpc_func namespace (field_of name ins t) ≡ ok (made (with_error namespace name ins t))
unfolding make_rpc_func make_for process_func_out process_outs returns_chan
make_rpc_func_lem namespace name ins t p = rw p refl

module _ {V : Type 0} (cs : ClientSide V) where
  pub finish_call_lem :
      (namespace name : String) (ins : List GoType) (t : GoType) (id loop : ℤ) (chan v : V)
      (b : Bytes) (e : Option RespError)
      → cs.unmarshal t b ≡ decoded v
      → finish_call cs
          (with_error namespace name ins t)
          id
          loop
          chan
          (answered (record { jsonrpc = "2.0"; result = some b; id = own id; error = e }))
        ≡ ok (value v ∷ error e ∷ [])
  unfolding finish_call dereference finish_answer finish_value result_value process_response put
  finish_call_lem namespace name ins t id loop chan v b e u = rw (beq_refl id, u) refl

  -- An answer without a result.
  pub finish_call-zero_value :
      (namespace name : String) (ins : List GoType) (t : GoType) (id loop : ℤ) (chan : V)
      (e : Option RespError)
      → finish_call cs
          (with_error namespace name ins t)
          id
          loop
          chan
          (answered (record { jsonrpc = "2.0"; result = none; id = own id; error = e }))
        ≡ ok (value (cs.zero_value t) ∷ error e ∷ [])
  unfolding finish_call dereference finish_answer finish_value result_value process_response put
  finish_call-zero_value namespace name ins t id loop chan e = rw (beq_refl id) refl
