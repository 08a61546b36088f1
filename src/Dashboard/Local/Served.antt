-- ===== src/Dashboard/Local/Served.antt =====
-- localserver.go and clientrpc.go together: a poller that runs against the stand-in node.
use Prim.Native.String.{◌++◌ as ◌<>◌}
use lotus_dashboard.Common.{
  ℕ, ◌≡◌, refl, String, List, [], ◌∷◌, map, true, false, ap, Option, none, some, ok, get_elem?,
  string_eq,
}
use lotus_dashboard.Common.Int.{pos}
use lotus_dashboard.Common.Dict.{lookup}
use lotus_dashboard.Rpc.Message.{Bytes}
use lotus_dashboard.Rpc.Util.{named, is_chan_type, unmarshal_json}
use lotus_dashboard.Rpc.Handler.{Reflect, decoded, returned, call_params}
use lotus_dashboard.Rpc.Handler.Returns.{Decodes, Returns}
use lotus_dashboard.Rpc.Handler.Span.{Tracing}
use lotus_dashboard.Rpc.Server.{RpcServer, new_server, server_register}
use lotus_dashboard.Rpc.Websocket.{Json}
use lotus_dashboard.Rpc.Client.{ClientSide, make_request, make_params, make_param, arguments}
use lotus_dashboard.Rpc.Client.Connect.{Argument, address, nil_tipset}
use lotus_dashboard.Dashboard.Report.{Lotus}
use lotus_dashboard.Dashboard.Poll.{
  Reply, Call, listen_addrs, node_name, head_of_chain, actor_address, miner_power_of,
  wallet_balance_of, size_of_sector, count_of_sectors, poll,
}
use lotus_dashboard.Dashboard.Poll.Calls.{field, node_of}
use lotus_dashboard.Dashboard.Poll.Healthy.{Answers, report_of}
use lotus_dashboard.Dashboard.Poll.Remote.{
  value_type, request_of, Serves, Delivers, first_call, poll-Served,
}
use lotus_dashboard.Dashboard.Local.Server.{
  local_main, receivers, entry_of, entries, HasTypes, makes, registers_server,
}
use lotus_dashboard.Dashboard.Local.{local_addresses, local_reply, local_net_addrs_listen}

-- `handler` is the `&SimpleServerHandler{}`, and `method` its methods as reflect finds them.
module _ (parse_addresses : List String → List (List String)) (tip_set_height : Option ℕ)
    (go : Reflect) (tr : Tracing) (handler : go.Value) (method : Call → go.Func) where
  -- What comes behind the receiver and the context.
  abbrev params_of : Call → go.Value → go.Value → List go.Value
  params_of wallet_balance_of a t = a ∷ []
  params_of miner_power_of a t = a ∷ t ∷ []
  params_of size_of_sector a t = a ∷ t ∷ []
  params_of count_of_sectors a t = a ∷ t ∷ []
  params_of c a t = []

  -- What main/rpc relies on in reflect and encoding/json, for this handler and this client:
  -- a method that gets a receiver, a context and what its parameters decode as, returns its value
  -- and a nil error; the values and the parameters can be encoded and read again.
  pub record Understands (cs : ClientSide go.Value) (ctx : ℕ)
      (argument : String → Argument → go.Value) (as_reply : go.Value → Reply) : Type 0 where
    pub types : HasTypes go handler method
    pub nil_error : go.Value
    pub nil_error_text : go.error_text nil_error ≡ none
    pub held : Reply → go.Value
    pub addr_held : String → go.Value
    pub tip_set_held : go.Value
    pub addr_bytes : String → Bytes
    pub tip_set_bytes : Bytes
    pub addr_encodes : (a : String) → cs.marshal (argument a address) ≡ some (addr_bytes a)
    pub tip_set_encodes : (a : String) → cs.marshal (argument a nil_tipset) ≡ some tip_set_bytes
    pub addr_decodes :
        (a : String) → go.decode (named "address.Address") (addr_bytes a) ≡ decoded (addr_held a)
    pub tip_set_decodes : go.decode (named "*type_.TipSet") tip_set_bytes ≡ decoded tip_set_held
    pub addr_passed : (a : String) → go.value_of (addr_held a) ≡ addr_held a
    pub tip_set_passed : go.value_of tip_set_held ≡ tip_set_held
    pub calls :
        (c : Call) (a : String) (w : Reply)
        → local_reply parse_addresses tip_set_height c ≡ ok w
        → go.call
            (method c)
            (handler ∷ go.context_value ctx ∷ params_of c (addr_held a) tip_set_held)
          ≡ returned (held w ∷ nil_error ∷ [])
    pub not_nil : (w : Reply) → go.interface (held w) ≡ some (held w)
    pub no_channel : (w : Reply) → go.is_chan (held w) ≡ false
    pub bytes_of : Reply → Bytes
    pub encodes : (w : Reply) → cs.marshal (held w) ≡ some (bytes_of w)
    pub reads :
        (c : Call) (w : Reply)
        → local_reply parse_addresses tip_set_height c ≡ ok w
        → cs.unmarshal (value_type c) (bytes_of w) ≡ decoded (held w)
    pub as_held : (w : Reply) → as_reply (held w) ≡ w

  plain_type : (c : Call) → is_chan_type (value_type c) ≡ false
  plain_type listen_addrs = refl
  plain_type node_name = refl
  plain_type head_of_chain = refl
  plain_type actor_address = refl
  plain_type miner_power_of = refl
  plain_type wallet_balance_of = refl
  plain_type size_of_sector = refl
  plain_type count_of_sectors = refl

  in_table :
      (c : Call)
      → lookup ("Filecoin" <> ("." <> (field c).name)) (entries go handler method)
        ≡ some (entry_of go handler method c)
  unfolding field
  in_table listen_addrs = refl
  in_table node_name = refl
  in_table head_of_chain = refl
  in_table actor_address = refl
  in_table miner_power_of = refl
  in_table wallet_balance_of = refl
  in_table size_of_sector = refl
  in_table count_of_sectors = refl

  module _ (cs : ClientSide go.Value) (js : Json go.Value) (ctx : ℕ) (ch_out : go.Value → go.Value)
      (chan : go.Value) (argument : String → Argument → go.Value) (as_reply : go.Value → Reply)
      (u : Understands cs ctx argument as_reply) where
    decodes :
        (c : Call) (a : String)
        → Decodes go
            (receivers go handler method c)
            (map
              (λ p. p.bytes)
              (request_of go cs js
                (entries go handler method)
                ctx
                ch_out
                chan
                argument
                as_reply
                c
                a).params)
            (params_of c (u.addr_held a) u.tip_set_held)
    unfolding make_request make_params make_param arguments unmarshal_json
    decodes listen_addrs a = tt
    decodes node_name a = tt
    decodes head_of_chain a = tt
    decodes actor_address a = tt
    decodes wallet_balance_of a =
        ((_, rw (u.addr_encodes a) (u.addr_decodes a), u.addr_passed a), tt)
    decodes c a = (
      (_, rw (u.addr_encodes a) (u.addr_decodes a), u.addr_passed a),
      ((_, rw (u.tip_set_encodes a) u.tip_set_decodes, u.tip_set_passed), tt),
    )

    method-Returns :
        (c : Call) (a : String) (w : Reply)
        → local_reply parse_addresses tip_set_height c ≡ ok w
        → Returns go
            (method c)
            (call_params go
              (entry_of go handler method c)
              ctx
              (params_of c (u.addr_held a) u.tip_set_held))
            (value_type c)
            (u.held w)
            none
    unfolding call_params
    method-Returns c a w e = record {
      outs = ap (λ t. t.outs) (u.types c);
      plain = plain_type c;
      err = u.nil_error;
      called = u.calls c a w e;
      says = u.nil_error_text;
      not_nil = u.not_nil w;
      no_channel = u.no_channel w;
    }

    serves :
        (c : Call) (a : String) (w : Reply)
        → local_reply parse_addresses tip_set_height c ≡ ok w
        → Serves go cs js
            (entries go handler method)
            ctx
            ch_out
            chan
            argument
            as_reply
            c
            a
            (u.held w)
    serves c a w e = record {
      receiver = handler;
      func = method c;
      entry = entry_of go handler method c;
      params = params_of c (u.addr_held a) u.tip_set_held;
      bytes = u.bytes_of w;
      in_table = in_table c;
      registered = makes go handler method u.types c;
      decodes = decodes c a;
      method_returns = method-Returns c a w e;
      encodes = u.encodes w;
      reads = u.reads c w e;
    }

    delivers :
        (c : Call) (a : String) (w : Reply)
        → local_reply parse_addresses tip_set_height c ≡ ok w
        → Delivers go cs js (entries go handler method) ctx ch_out chan argument as_reply c a w
    delivers c a w e = (u.held w, serves c a w e, u.as_held w)

    -- What the stand-in answers.
    abbrev pub local_answers : List String → String → String → ℕ → Answers
    local_answers addrs second ip head = record {
      addrs = addrs;
      second = second;
      ip = ip;
      name = "12D3KooWH7GXgKS4gshpFrbYQ6UxzHeJxfqz5FyfhCn2RnNjofph";
      head = head;
      miner = "t06266";
      power_of = some (pos 1000);
      wallet = some (pos 487776486641635185);
      size = 1073741824;
      count = 49;
    }

    -- A poller can be tried out against the stand-in node. If `ParseAddresses` gives a peer for the
    -- stand-in's addresses whose second address has a third part, and `NewTipSet` a tipset, then
    -- `main` of localserver.go comes to its server without a panic; and a round of a poller that
    -- reaches this server through the RPC client, its connection and `handle` returns, reports what
    -- the methods of `SimpleServerHandler` give, and goes on with the address of their miner. What
    -- reflect and encoding/json do with these methods and values is as `Understands` lists it.
    pub poll-local_main :
        (split : String → List String) (parse : String → String) (addr : String) (l : Lotus)
        (addrs : List String) (second ip : String) (head : ℕ)
        → get_elem? (parse_addresses local_addresses) 0 ≡ some addrs
        → get_elem? addrs 1 ≡ some second
        → get_elem? (split second) 2 ≡ some ip
        → tip_set_height ≡ some head
        → (server : RpcServer go) × (local_main parse_addresses tip_set_height go tr handler method
            ≡ ok server)
          × (poll
                (node_of true
                  (first_call go cs js server.methods ctx ch_out chan argument as_reply)
                  split
                  parse)
                l
                addr
              ≡ ok (report_of (local_answers addrs second ip head) l, parse "t06266"))
    unfolding local_main local_reply local_net_addrs_listen server_register new_server
    poll-local_main split parse addr l addrs second ip head pa ga sp th = (
      record { methods = (entries go handler method) },
      rw (pa, th) (registers_server parse_addresses tip_set_height go tr handler method u.types),
      poll-Served go cs js (entries go handler method) ctx ch_out chan argument as_reply split parse
          addr (local_answers addrs second ip head) l
          (record {
            addrs = delivers listen_addrs addr _ (rw pa refl);
            second = ga;
            part = sp;
            name = delivers node_name addr _ refl;
            head = delivers head_of_chain addr _ (rw th refl);
            miner = delivers actor_address addr _ refl;
            power = delivers miner_power_of (parse "t06266") _ refl;
            wallet = delivers wallet_balance_of (parse "t06266") _ refl;
            size = delivers size_of_sector (parse "t06266") _ refl;
            count = delivers count_of_sectors (parse "t06266") _ refl;
          }),
    )
