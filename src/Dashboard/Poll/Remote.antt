-- ===== src/Dashboard/Poll/Remote.antt =====
-- clientrpc.go and main/rpc together: a round of the poller against the table of methods of a
-- server.
use Prim.Native.String.{◌++◌ as ◌<>◌}
use mathlib.Core.Path.{subst}
use lotus_dashboard.Common.{
  ℕ, ◌≡◌, ◌≢◌, ◌∙◌, ap, sym, inl, refl, String, List, [], ◌∷◌, map, true, none, some, Result, ok,
  get_elem?, ◌>>=◌, string_eq,
}
use lotus_dashboard.Common.Int.{pos}
use lotus_dashboard.Common.Dict.{lookup}
use lotus_dashboard.Rpc.Message.{Bytes, Request, RespError}
use lotus_dashboard.Rpc.Util.{GoType, context_type, named}
use lotus_dashboard.Rpc.Handler.{Reflect, Handlers, RpcHandler, decoded, make_handler, call_params}
use lotus_dashboard.Rpc.Handler.Returns.{Decodes, Returns}
use lotus_dashboard.Rpc.Websocket.{Json}
use lotus_dashboard.Rpc.Websocket.Loop.{connect}
use lotus_dashboard.Rpc.Client.{
  ClientSide, RpcFunc, Made, made, Slot, unset, value, error, make_rpc_func, make_request,
}
use lotus_dashboard.Rpc.Client.Returns.{with_error, make_rpc_func_lem}
use lotus_dashboard.Rpc.Client.Connect.{Argument, connected}
use lotus_dashboard.Rpc.RoundTrip.Calls.{remote_call}
use lotus_dashboard.Rpc.RoundTrip.Outcomes.{remote_call_rejects, remote_call-Returns}
use lotus_dashboard.Dashboard.Report.{Lotus}
use lotus_dashboard.Dashboard.Poll.{
  Reply, addr_info, text, tip_set, power_of_miner, big_int, uint64, miner_sectors, Call,
  listen_addrs, node_name, head_of_chain, actor_address, miner_power_of, wallet_balance_of,
  size_of_sector, count_of_sectors, poll,
}
use lotus_dashboard.Dashboard.Poll.Calls.{field, rpc_of, node_of, arguments_of, Gives, rpc_of-Gives}
use lotus_dashboard.Dashboard.Poll.Healthy.{Answers, report_of, poll-Healthy}
use lotus_dashboard.Dashboard.Poll.Refusals.{is_needed, poll-error}

abbrev slot_of : {V W : Type 0} → (V → W) → Slot V → Slot W
slot_of f unset = unset
slot_of f (value v) = value (f v)
slot_of f (error e) = error e

-- The inputs of each function, and the type of its value.
abbrev pub inputs : Call → List GoType
inputs wallet_balance_of = context_type ∷ named "address.Address" ∷ []
inputs miner_power_of = context_type ∷ named "address.Address" ∷ named "*type_.TipSet" ∷ []
inputs size_of_sector = context_type ∷ named "address.Address" ∷ named "*type_.TipSet" ∷ []
inputs count_of_sectors = context_type ∷ named "address.Address" ∷ named "*type_.TipSet" ∷ []
inputs c = context_type ∷ []

abbrev pub value_type : Call → GoType
value_type listen_addrs = named "peer.AddrInfo"
value_type node_name = named "string"
value_type head_of_chain = named "*type_.TipSet"
value_type actor_address = named "string"
value_type miner_power_of = named "client_.MinerPower"
value_type wallet_balance_of = named "type_.BigInt"
value_type size_of_sector = named "uint64"
value_type count_of_sectors = named "client_.MinerSectors"

-- The function that the field of a call becomes.
abbrev pub function : Call → RpcFunc
function c = with_error "Filecoin" (field c).name (inputs c) (value_type c)

becomes : (c : Call) → make_rpc_func "Filecoin" (field c) ≡ ok (made (function c))
unfolding field
becomes listen_addrs = make_rpc_func_lem "Filecoin" _ _ _ refl
becomes node_name = make_rpc_func_lem "Filecoin" _ _ _ refl
becomes head_of_chain = make_rpc_func_lem "Filecoin" _ _ _ refl
becomes actor_address = make_rpc_func_lem "Filecoin" _ _ _ refl
becomes miner_power_of = make_rpc_func_lem "Filecoin" _ _ _ refl
becomes wallet_balance_of = make_rpc_func_lem "Filecoin" _ _ _ refl
becomes size_of_sector = make_rpc_func_lem "Filecoin" _ _ _ refl
becomes count_of_sectors = make_rpc_func_lem "Filecoin" _ _ _ refl

made_inj : {f g : RpcFunc} → ◌≡◌ {A = Result Made} (ok (made f)) (ok (made g)) → f ≡ g
made_inj e = cc

fn_lem :
    (c : Call) (fn : RpcFunc) → make_rpc_func "Filecoin" (field c) ≡ ok (made fn) → fn ≡ function c
fn_lem c fn e = made_inj (sym e ∙ becomes c)

-- `argument` is what a parameter is for an address, `as_reply` what an `interface{}` of a value
-- holds; `chan` is as in `remote_call`.
module _ (go : Reflect) (cs : ClientSide go.Value) (js : Json go.Value) (hs : Handlers go) (ctx : ℕ)
    (ch_out : go.Value → go.Value) (chan : go.Value) (argument : String → Argument → go.Value)
    (as_reply : go.Value → Reply) where
  -- The one call of a new client, on a new connection.
  unfoldable pub first_call : String → RpcFunc → List Argument → Result (List (Slot Reply))
  first_call addr fn args =
      remote_call go cs js hs ctx ch_out fn (pos 0) 0 (map (argument addr) args) chan connect
      >>= λ out. ok (map (slot_of as_reply) out)

  refused :
      (c : Call) (addr : String)
      → lookup ("Filecoin" <> ("." <> (field c).name)) hs ≡ none
      → (v : Reply) × (e : RespError) × Gives first_call addr c v (some e)
  unfolding first_call
  refused c addr missing =
      let (code, message', k, p) =
        remote_call_rejects go cs js hs ctx ch_out "Filecoin" (field c).name (inputs c)
          (value_type c) (pos 0) 0 (map (argument addr) (arguments_of c)) chan connect
          (inl missing) in
      (
        as_reply (cs.zero_value (value_type c)),
        record { code = code; message = message' },
        λ fn m.
            subst
              (λ g.
                first_call addr g (arguments_of c)
                ≡ ok (
                    value (as_reply (cs.zero_value (value_type c)))
                    ∷ error (some (record { code = code; message = message' }))
                    ∷ []))
              (sym (fn_lem c fn m)) (ap (λ r. r >>= λ out. ok (map (slot_of as_reply) out)) p),
      )

  -- If a server has no method for one of the calls for its name, for the miner's address, for the
  -- sector size or for the sector count, then no round of a poller that reaches it through the RPC
  -- client, its connection and the server's `handle` returns.
  pub poll-missing :
      (split : String → List String) (parse : String → String) (c : Call) (l : Lotus)
      (addr : String) (r : Lotus × String)
      → is_needed c ≡ true
      → lookup ("Filecoin" <> ("." <> (field c).name)) hs ≡ none
      → poll (node_of true first_call split parse) l addr ≢ ok r
  poll-missing split parse c l addr r n missing =
      poll-error first_call split parse c l addr r n (λ a. refused c a missing)

  -- The request of a call's function.
  abbrev pub request_of : Call → String → Request go.Value
  request_of c addr = make_request cs (function c) (pos 0) 0 (map (argument addr) (arguments_of c))

  -- The server's method for a call, what it is called with, and its value, which comes without an
  -- error.
  pub record Serves (c : Call) (addr : String) (v : go.Value) : Type 0 where
    pub receiver : go.Value
    pub func : go.Func
    pub entry : RpcHandler go.Value go.Func
    pub params : List go.Value
    pub bytes : Bytes
    pub in_table : lookup ("Filecoin" <> ("." <> (field c).name)) hs ≡ some entry
    pub registered : make_handler go receiver func ≡ ok entry
    pub decodes :
        Decodes go entry.param_receivers (map (λ p. p.bytes) (request_of c addr).params) params
    pub method_returns : Returns go func (call_params go entry ctx params) (value_type c) v none
    pub encodes : cs.marshal v ≡ some bytes
    pub reads : cs.unmarshal (value_type c) bytes ≡ decoded v

  Serves-Gives :
      (c : Call) (addr : String) (v : go.Value) (w : Reply)
      → Serves c addr v
      → as_reply v ≡ w
      → Gives first_call addr c w none
  unfolding first_call
  Serves-Gives c addr v w s e fn m =
      let p =
        remote_call-Returns go cs js hs ctx ch_out "Filecoin" (field c).name (inputs c)
          (value_type c) (pos 0) 0 (map (argument addr) (arguments_of c)) chan connect s.receiver
          s.func s.entry s.params v none s.bytes s.in_table s.registered s.decodes s.method_returns
          s.encodes s.reads in
      subst (λ g. first_call addr g (arguments_of c) ≡ ok (value w ∷ error none ∷ []))
        (sym (fn_lem c fn m))
        (ap (λ r. r >>= λ out. ok (map (slot_of as_reply) out)) p
          ∙ ap (λ x. ok (value x ∷ error none ∷ [])) e)

  -- A call has a method in the server's table, whose value is a reply.
  abbrev pub Delivers : Call → String → Reply → Type 0
  Delivers c addr w = (v : go.Value) × Serves c addr v × (as_reply v ≡ w)

  -- The methods for the eight calls: the first four for the address of the round before, the others
  -- for the miner's. There is a second listen address, with a third part.
  pub record Served (split : String → List String) (parse : String → String) (addr : String)
      (a : Answers) : Type 0 where
    pub addrs : Delivers listen_addrs addr (addr_info a.addrs)
    pub second : get_elem? a.addrs 1 ≡ some a.second
    pub part : get_elem? (split a.second) 2 ≡ some a.ip
    pub name : Delivers node_name addr (text a.name)
    pub head : Delivers head_of_chain addr (tip_set (some a.head))
    pub miner : Delivers actor_address addr (text a.miner)
    pub power : Delivers miner_power_of (parse a.miner) (power_of_miner a.power_of)
    pub wallet : Delivers wallet_balance_of (parse a.miner) (big_int a.wallet)
    pub size : Delivers size_of_sector (parse a.miner) (uint64 a.size)
    pub count : Delivers count_of_sectors (parse a.miner) (miner_sectors a.count)

  delivered :
      (c : Call) (addr : String) (w : Reply)
      → Delivers c addr w
      → rpc_of true first_call c addr ≡ ok (connected (some w))
  delivered c addr w (v, s, e) = rpc_of-Gives first_call addr c w none (Serves-Gives c addr v w s e)

  -- The whole way works. If the server's table has for each of the eight calls an entry that
  -- `register` makes of a method, which decodes the parameters of the call, and whose method returns
  -- a value, neither nil nor a channel, that can be encoded and read again, and no error; and if the
  -- second of the listen addresses has a third part: then a round of a poller that reaches the
  -- server through the RPC client, its connection and the server's `handle` returns, reports these
  -- values, and goes on with the miner's address.
  pub poll-Served :
      (split : String → List String) (parse : String → String) (addr : String) (a : Answers)
      (l : Lotus)
      → Served split parse addr a
      → poll (node_of true first_call split parse) l addr ≡ ok (report_of a l, parse a.miner)
  unfolding node_of
  poll-Served split parse addr a l s =
      poll-Healthy (node_of true first_call split parse) addr a
        (record {
          addrs_reply = delivered listen_addrs addr _ s.addrs;
          second_addr = s.second;
          ip_part = s.part;
          name_reply = delivered node_name addr _ s.name;
          head_reply = delivered head_of_chain addr _ s.head;
          miner_reply = delivered actor_address addr _ s.miner;
          power_reply = delivered miner_power_of (parse a.miner) _ s.power;
          wallet_reply = delivered wallet_balance_of (parse a.miner) _ s.wallet;
          size_reply = delivered size_of_sector (parse a.miner) _ s.size;
          count_reply = delivered count_of_sectors (parse a.miner) _ s.count;
        })
        l
