-- ===== src/Dashboard/Local/Server.antt =====
-- localserver.go: `main` of the stand-in, up to the server that it listens with.
use lotus_dashboard.Common.{
  ℕ, ◌≡◌, refl, String, List, [], ◌∷◌, true, Option, some, Result, ok, ◌>>=◌, length, string_eq,
}
use lotus_dashboard.Rpc.Util.{GoType, named, error_type, process_func_out, process_outs}
use lotus_dashboard.Rpc.Handler.{
  Reflect, RpcHandler, Handlers, make_handler, register, takes_context, receivers_of,
}
use lotus_dashboard.Rpc.Handler.Span.{Tracing}
use lotus_dashboard.Rpc.Server.{RpcServer, new_server, server_register}
use lotus_dashboard.Dashboard.Poll.{
  Call, listen_addrs, node_name, head_of_chain, actor_address, miner_power_of, wallet_balance_of,
  size_of_sector, count_of_sectors,
}
use lotus_dashboard.Dashboard.Poll.Remote.{inputs, value_type}
use lotus_dashboard.Dashboard.Local.{local_reply}

-- `handler` is the `&SimpleServerHandler{}`, and `method` its methods as reflect finds them.
module _ (go : Reflect) (handler : go.Value) (method : Call → go.Func) where
  -- The methods, in reflect's order: by their names.
  abbrev pub local_methods : List (String × go.Func)
  local_methods =
      ("ActorAddress", method actor_address)
      ∷ ("ChainHead", method head_of_chain)
      ∷ ("ID", method node_name)
      ∷ ("NetAddrsListen", method listen_addrs)
      ∷ ("StateMinerPower", method miner_power_of)
      ∷ ("StateMinerSectorCount", method count_of_sectors)
      ∷ ("StateMinerSectorSize", method size_of_sector)
      ∷ ("WalletBalance", method wallet_balance_of)
      ∷ []

  -- What `register` makes of each method.
  abbrev pub receivers : Call → List GoType
  receivers wallet_balance_of = named "address.Address" ∷ []
  receivers miner_power_of = named "address.Address" ∷ named "*type_.TipSet" ∷ []
  receivers size_of_sector = named "address.Address" ∷ named "*type_.TipSet" ∷ []
  receivers count_of_sectors = named "address.Address" ∷ named "*type_.TipSet" ∷ []
  receivers c = []

  abbrev pub entry_of : Call → RpcHandler go.Value go.Func
  entry_of c = record {
    param_receivers = receivers c;
    n_params = length (receivers c);
    receiver = handler;
    handler_func = method c;
    has_ctx = true;
    err_out = some 1;
    val_out = some 0;
  }

  abbrev pub entries : Handlers go
  entries =
      ("Filecoin.ActorAddress", entry_of actor_address)
      ∷ ("Filecoin.ChainHead", entry_of head_of_chain)
      ∷ ("Filecoin.ID", entry_of node_name)
      ∷ ("Filecoin.NetAddrsListen", entry_of listen_addrs)
      ∷ ("Filecoin.StateMinerPower", entry_of miner_power_of)
      ∷ ("Filecoin.StateMinerSectorCount", entry_of count_of_sectors)
      ∷ ("Filecoin.StateMinerSectorSize", entry_of size_of_sector)
      ∷ ("Filecoin.WalletBalance", entry_of wallet_balance_of)
      ∷ []

  -- The types of the methods, as reflect gives them.
  abbrev pub HasTypes : Type 0
  HasTypes =
      (c : Call)
      → go.func_type (method c) ≡ record {
        ins = named "*main.SimpleServerHandler" ∷ inputs c;
        outs = value_type c ∷ error_type ∷ [];
      }

  module _ (types : HasTypes) where
    pub makes : (c : Call) → make_handler go handler (method c) ≡ ok (entry_of c)
    unfolding make_handler process_func_out process_outs takes_context receivers_of
    makes listen_addrs = rw (types listen_addrs) refl
    makes node_name = rw (types node_name) refl
    makes head_of_chain = rw (types head_of_chain) refl
    makes actor_address = rw (types actor_address) refl
    makes miner_power_of = rw (types miner_power_of) refl
    makes wallet_balance_of = rw (types wallet_balance_of) refl
    makes size_of_sector = rw (types size_of_sector) refl
    makes count_of_sectors = rw (types count_of_sectors) refl

    pub registers : register go "Filecoin" handler local_methods [] ≡ ok entries
    unfolding register
    registers =
        rw
          (
            makes actor_address,
            makes head_of_chain,
            makes node_name,
            makes listen_addrs,
            makes miner_power_of,
            makes count_of_sectors,
            makes size_of_sector,
            makes wallet_balance_of,
          )
          refl

  server_register_lem :
      (tr : Tracing) (s : RpcServer go) (hs : Handlers go)
      → register go "Filecoin" handler local_methods s.methods ≡ ok hs
      → server_register go tr "Filecoin" handler local_methods s ≡ ok (record { methods = hs })
  unfolding server_register
  server_register_lem tr s hs e = rw (server_register, e) refl

module _ (parse_addresses : List String → List (List String)) (tip_set_height : Option ℕ)
    (go : Reflect) (tr : Tracing) (handler : go.Value) (method : Call → go.Func) where
  -- `main` up to the server that it gives to the http package: each method is called once, and the
  -- value is registered.
  unfoldable pub local_main : Result (RpcServer go)
  local_main = do
    id ← local_reply parse_addresses tip_set_height node_name
    ip ← local_reply parse_addresses tip_set_height listen_addrs
    height ← local_reply parse_addresses tip_set_height head_of_chain
    power ← local_reply parse_addresses tip_set_height miner_power_of
    balance ← local_reply parse_addresses tip_set_height wallet_balance_of
    size ← local_reply parse_addresses tip_set_height size_of_sector
    count ← local_reply parse_addresses tip_set_height count_of_sectors
    actor ← local_reply parse_addresses tip_set_height actor_address
    server_register go tr "Filecoin" handler (local_methods go handler method) (new_server go tr)

  pub registers_server :
      HasTypes go handler method
      → server_register go tr "Filecoin" handler
          (local_methods go handler method)
          (new_server go tr)
        ≡ ok (record { methods = (entries go handler method) })
  unfolding new_server
  registers_server types =
      server_register_lem go handler method tr (new_server go tr) (entries go handler method)
        (registers go handler method types)
