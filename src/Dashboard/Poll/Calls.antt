-- ===== src/Dashboard/Poll/Calls.antt =====
-- clientrpc.go: the structs that the poller hands to `NewClient`, and a round through the RPC
-- client.
use mathlib.Core.List.{flatten}
use lotus_dashboard.Common.{
  length, ◌≡◌, refl, ap, ◌∙◌, String, List, [], ◌∷◌, Bool, true, Option, none, Result, ok, false,
  ◌==◌, string_eq,
}
use lotus_dashboard.Rpc.Message.{RespError}
use lotus_dashboard.Rpc.Util.{GoType, context_type, error_type, named, process_func_out}
use lotus_dashboard.Rpc.Client.{Field, func, RpcFunc, made, Slot, value, error, make_rpc_func}
use lotus_dashboard.Rpc.Client.Connect.{
  Argument, background, address, nil_tipset, struct_pointer, Client, connected, new_client,
  param_list, check_arguments,
}
use lotus_dashboard.Rpc.Client.Connect.Calls.{last_good, new_merge_client-last_good}
use lotus_dashboard.Dashboard.Poll.{
  Reply, Call, listen_addrs, node_name, head_of_chain, actor_address, miner_power_of,
  wallet_balance_of, size_of_sector, count_of_sectors, Node,
}

-- A function with an error as its second result.
abbrev method : String → List GoType → String → Field
method name ins out = record {
  name = name;
  type = func (record { ins = ins; outs = named out ∷ error_type ∷ [] });
}

-- The field of each struct.
unfoldable pub field : Call → Field
field listen_addrs = method "NetAddrsListen" (context_type ∷ []) "peer.AddrInfo"
field node_name = method "ID" (context_type ∷ []) "string"
field head_of_chain = method "ChainHead" (context_type ∷ []) "*type_.TipSet"
field miner_power_of =
    method "StateMinerPower" (context_type ∷ named "address.Address" ∷ named "*type_.TipSet" ∷ [])
      "client_.MinerPower"
field wallet_balance_of =
    method "WalletBalance" (context_type ∷ named "address.Address" ∷ []) "type_.BigInt"
field size_of_sector =
    method "StateMinerSectorSize"
      (context_type ∷ named "address.Address" ∷ named "*type_.TipSet" ∷ []) "uint64"
field count_of_sectors =
    method "StateMinerSectorCount"
      (context_type ∷ named "address.Address" ∷ named "*type_.TipSet" ∷ []) "client_.MinerSectors"
field actor_address = method "ActorAddress" (context_type ∷ []) "string"

-- Which argument has which type, among the types of the structs.
abbrev pub assignable : GoType → Argument → Bool
assignable context_type background = true
assignable (GoType.named s) address = s == "address.Address"
assignable (GoType.named s) nil_tipset = s == "*type_.TipSet"
assignable t a = false

module _ (dialled : Bool)
    (call : String → RpcFunc → List Argument → Result (List (Slot Reply))) where
  -- `client_.NewClient("ws://127.0.0.1:12666", "Filecoin", &_, _, addr)`
  unfoldable pub rpc_of : Call → String → Result (Client Reply)
  rpc_of c addr =
      new_client "Filecoin" assignable (call addr) dialled (struct_pointer (field c ∷ []))

  -- The poller's node, reached through the RPC client.
  unfoldable pub node_of : (String → List String) → (String → String) → Node
  node_of split parse = record { split = split; parse = parse; rpc = rpc_of }

-- The parameters of each call.
abbrev pub arguments_of : Call → List Argument
arguments_of listen_addrs = background ∷ []
arguments_of node_name = background ∷ []
arguments_of head_of_chain = background ∷ []
arguments_of actor_address = background ∷ []
arguments_of wallet_balance_of = background ∷ address ∷ []
arguments_of c = background ∷ address ∷ nil_tipset ∷ []

-- A field becomes a function, with these parameters.
record IsFit (c : Call) : Type 0 where
  fn : RpcFunc
  becomes : make_rpc_func "Filecoin" (field c) ≡ ok (made fn)
  fits :
      check_arguments assignable fn.ftyp.ins (param_list (length fn.ftyp.ins))
      ≡ ok (param_list (length fn.ftyp.ins))
  passes : param_list (length fn.ftyp.ins) ≡ arguments_of c

fit : (c : Call) → IsFit c
unfolding make_rpc_func field process_func_out param_list check_arguments
fit listen_addrs = record { fn = _; becomes = refl; fits = refl; passes = refl }
fit node_name = record { fn = _; becomes = refl; fits = refl; passes = refl }
fit head_of_chain = record { fn = _; becomes = refl; fits = refl; passes = refl }
fit actor_address = record { fn = _; becomes = refl; fits = refl; passes = refl }
fit wallet_balance_of = record { fn = _; becomes = refl; fits = refl; passes = refl }
fit miner_power_of = record { fn = _; becomes = refl; fits = refl; passes = refl }
fit size_of_sector = record { fn = _; becomes = refl; fits = refl; passes = refl }
fit count_of_sectors = record { fn = _; becomes = refl; fits = refl; passes = refl }

module _ (call : String → RpcFunc → List Argument → Result (List (Slot Reply)))
    (addr : String) where
  -- The node returns a value and an error for a call.
  abbrev pub Gives : Call → Reply → Option RespError → Type 0
  Gives c v e =
      (fn : RpcFunc)
      → make_rpc_func "Filecoin" (field c) ≡ ok (made fn)
      → call addr fn (arguments_of c) ≡ ok (value v ∷ error e ∷ [])

  pub rpc_of-Gives :
      (c : Call) (v : Reply) (e : Option RespError)
      → Gives c v e
      → rpc_of true call c addr ≡ ok (connected (last_good ((v, e) ∷ []) none))
  unfolding rpc_of new_client flatten
  rpc_of-Gives c v e g =
      let f = fit c in
      new_merge_client-last_good "Filecoin" assignable (call addr) ((field c ∷ []) ∷ [])
        ((v, e) ∷ [])
        (
          record {
            fn = f.fn;
            becomes = f.becomes;
            fits = f.fits;
            returns = ap (call addr f.fn) f.passes ∙ g f.fn f.becomes;
          },
          tt,
        )
