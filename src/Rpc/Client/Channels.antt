-- ===== src/Rpc/Client/Channels.antt =====
-- A field whose function has a remote channel and an error as its results.
use lotus_dashboard.Common.{◌≡◌, refl, String, List, [], ◌∷◌, true, Option, some, ok, beq_refl}
use lotus_dashboard.Common.Int.{ℤ, int_eq}
use lotus_dashboard.Rpc.Util.{GoType, chan_type, error_type, process_func_out, process_outs}
use lotus_dashboard.Rpc.Message.{Bytes, RespError, own}
use lotus_dashboard.Rpc.Client.{
  ClientSide, RpcFunc, Field, func, made, value, error, make_for, make_rpc_func, first_is_context,
  returns_chan, answered, finish_call, finish_answer, process_response, dereference, put,
}

-- The function that such a field becomes.
abbrev pub with_channel : String → String → List GoType → GoType → RpcFunc
with_channel namespace name ins t = record {
  namespace = namespace;
  ftyp = record { ins = ins; outs = chan_type t ∷ error_type ∷ [] };
  name = name;
  nout = 2;
  val_out = some 0;
  err_out = some 1;
  has_ctx = first_is_context ins;
  ret_ch = true;
}

abbrev pub channel_field : String → List GoType → GoType → Field
channel_field name ins t = record {
  name = name;
  type = func (record { ins = ins; outs = chan_type t ∷ error_type ∷ [] });
}

pub becomes_channel :
    (namespace name : String) (ins : List GoType) (t : GoType)
    → make_rpc_func namespace (channel_field name ins t)
      ≡ ok (made (with_channel namespace name ins t))
unfolding make_rpc_func make_for process_func_out process_outs returns_chan
becomes_channel namespace name ins t = refl

pub finish_call-channel :
    {V : Type 0} (cs : ClientSide V) (namespace name : String) (ins : List GoType) (t : GoType)
    (id loop : ℤ) (chan : V) (res : Option Bytes) (e : Option RespError)
    → finish_call cs
        (with_channel namespace name ins t)
        id
        loop
        chan
        (answered (record { jsonrpc = "2.0"; result = res; id = own id; error = e }))
      ≡ ok (value chan ∷ error e ∷ [])
unfolding finish_call dereference finish_answer process_response put
finish_call-channel cs namespace name ins t id loop chan res e = rw (beq_refl id) refl
