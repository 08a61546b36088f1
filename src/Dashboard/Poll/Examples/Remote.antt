-- ===== src/Dashboard/Poll/Examples/Remote.antt =====
-- A round of the poller against a server with the eight methods, and against one without a method.
use Prim.Native.String.{◌++◌ as ◌<>◌}
use lotus_dashboard.Common.{
  ℕ, zero, suc, ◌≡◌, ◌≢◌, refl, String, List, [], ◌∷◌, map, true, false, Option, none, some, ok,
  string_eq, ◌==◌, if◌then◌else◌,
}
use lotus_dashboard.Common.Int.{pos}
use lotus_dashboard.Common.Dict.{lookup}
use lotus_dashboard.Rpc.Message.{Bytes}
use lotus_dashboard.Rpc.Util.{
  GoType, FuncType, named, error_type, is_chan_type, process_func_out, process_outs, unmarshal_json,
}
use lotus_dashboard.Rpc.Handler.{
  Reflect, Decoded, decoded, undecodable, returned, Handlers, RpcHandler, make_handler,
  takes_context, receivers_of,
}
use lotus_dashboard.Rpc.Handler.Returns.{Decodes, Returns}
use lotus_dashboard.Rpc.Websocket.{Json}
use lotus_dashboard.Rpc.Client.{ClientSide, make_request, make_params, make_param, arguments}
use lotus_dashboard.Rpc.Client.Connect.{Argument}
use lotus_dashboard.Dashboard.Poll.{
  Reply, addr_info, text, tip_set, power_of_miner, big_int, uint64, miner_sectors, Call,
  listen_addrs, node_name, head_of_chain, actor_address, miner_power_of, wallet_balance_of,
  size_of_sector, count_of_sectors, poll, initial,
}
use lotus_dashboard.Dashboard.Poll.Calls.{field, node_of}
use lotus_dashboard.Dashboard.Poll.Healthy.{Answers, report_of}
use lotus_dashboard.Dashboard.Poll.Remote.{
  inputs, value_type, request_of, Serves, Served, first_call, poll-Served, poll-missing,
}

-- What each method returns.
abbrev reply_of : Call → Reply
reply_of listen_addrs = addr_info ("/ip4/10.0.0.2" ∷ "/ip4/10.0.0.3" ∷ [])
reply_of node_name = text "node"
reply_of head_of_chain = tip_set (some 51174)
reply_of actor_address = text "t06266"
reply_of miner_power_of = power_of_miner (some (pos 1000))
reply_of wallet_balance_of = big_int (some (pos 7))
reply_of size_of_sector = uint64 32
reply_of count_of_sectors = miner_sectors 3

-- A reply is written as one number, and a text as none or one.
abbrev encode : Reply → Bytes
encode (addr_info a) = 0 ∷ []
encode (text s) = if s == "node" then 1 ∷ [] else 3 ∷ []
encode (tip_set h) = 2 ∷ []
encode (power_of_miner p) = 4 ∷ []
encode (big_int b) = 5 ∷ []
encode (uint64 n) = 6 ∷ []
encode (miner_sectors n) = 7 ∷ []

abbrev numbered : ℕ → Reply
numbered zero = reply_of listen_addrs
numbered (suc zero) = reply_of node_name
numbered (suc (suc zero)) = reply_of head_of_chain
numbered (suc (suc (suc zero))) = reply_of actor_address
numbered (suc (suc (suc (suc zero)))) = reply_of miner_power_of
numbered (suc (suc (suc (suc (suc zero))))) = reply_of wallet_balance_of
numbered (suc (suc (suc (suc (suc (suc zero)))))) = reply_of size_of_sector
numbered n = reply_of count_of_sectors

abbrev decode : GoType → Bytes → Decoded Reply
decode t (n ∷ []) = decoded (numbered n)
decode t b = undecodable "unexpected end of JSON input"

abbrev method_type : Call → FuncType
method_type c = record {
  ins = named "SimpleServerHandler" ∷ inputs c;
  outs = value_type c ∷ error_type ∷ [];
}

abbrev go : Reflect
go = record {
  Value = Reply;
  Func = Call;
  func_type = method_type;
  func_text = λ f. "<func Value>";
  call = λ f args. returned (reply_of f ∷ text "" ∷ []);
  context_value = λ n. text "";
  decode = decode;
  value_of = λ v. v;
  interface = λ v. some v;
  error_text = λ v. none;
  is_chan = λ v. false;
}

abbrev side : ClientSide Reply
side = record {
  zero_value = λ t. text "";
  marshal = λ v. some (encode v);
  unmarshal = decode;
  span_binary = λ n. n ∷ [];
  base64_encode = λ b. "";
}

abbrev js : Json Reply
js = record {
  unmarshal_int64 = λ b. none;
  unmarshal_uint64 = λ b. none;
  int64_value = λ n. text "";
  uint64_value = uint64;
}

-- An address and a nil tipset go as the miner's name.
abbrev argument : String → Argument → Reply
argument addr a = text "t06266"

abbrev passed : Call → List Reply
passed wallet_balance_of = text "t06266" ∷ []
passed miner_power_of = text "t06266" ∷ text "t06266" ∷ []
passed size_of_sector = text "t06266" ∷ text "t06266" ∷ []
passed count_of_sectors = text "t06266" ∷ text "t06266" ∷ []
passed c = []

abbrev receivers : Call → List GoType
receivers wallet_balance_of = named "address.Address" ∷ []
receivers miner_power_of = named "address.Address" ∷ named "*type_.TipSet" ∷ []
receivers size_of_sector = named "address.Address" ∷ named "*type_.TipSet" ∷ []
receivers count_of_sectors = named "address.Address" ∷ named "*type_.TipSet" ∷ []
receivers c = []

abbrev count_of : Call → ℕ
count_of wallet_balance_of = 1
count_of miner_power_of = 2
count_of size_of_sector = 2
count_of count_of_sectors = 2
count_of c = 0

abbrev entry_of : Call → RpcHandler Reply Call
entry_of c = record {
  param_receivers = receivers c;
  n_params = count_of c;
  receiver = text "";
  handler_func = c;
  has_ctx = true;
  err_out = some 1;
  val_out = some 0;
}

abbrev table : Handlers go
table =
    ("Filecoin.NetAddrsListen", entry_of listen_addrs)
    ∷ ("Filecoin.ID", entry_of node_name)
    ∷ ("Filecoin.ChainHead", entry_of head_of_chain)
    ∷ ("Filecoin.ActorAddress", entry_of actor_address)
    ∷ ("Filecoin.StateMinerPower", entry_of miner_power_of)
    ∷ ("Filecoin.WalletBalance", entry_of wallet_balance_of)
    ∷ ("Filecoin.StateMinerSectorSize", entry_of size_of_sector)
    ∷ ("Filecoin.StateMinerSectorCount", entry_of count_of_sectors)
    ∷ []

plain_type : (c : Call) → is_chan_type (value_type c) ≡ false
plain_type listen_addrs = refl
plain_type node_name = refl
plain_type head_of_chain = refl
plain_type actor_address = refl
plain_type miner_power_of = refl
plain_type wallet_balance_of = refl
plain_type size_of_sector = refl
plain_type count_of_sectors = refl

in_table : (c : Call) → lookup ("Filecoin" <> ("." <> (field c).name)) table ≡ some (entry_of c)
unfolding field
in_table listen_addrs = refl
in_table node_name = refl
in_table head_of_chain = refl
in_table actor_address = refl
in_table miner_power_of = refl
in_table wallet_balance_of = refl
in_table size_of_sector = refl
in_table count_of_sectors = refl

registers : (c : Call) → make_handler go (text "") c ≡ ok (entry_of c)
unfolding make_handler process_func_out process_outs takes_context receivers_of
registers listen_addrs = refl
registers node_name = refl
registers head_of_chain = refl
registers actor_address = refl
registers miner_power_of = refl
registers wallet_balance_of = refl
registers size_of_sector = refl
registers count_of_sectors = refl

decodes :
    (c : Call) (addr : String)
    → Decodes go
        (receivers c)
        (map
          (λ p. p.bytes)
          (request_of go side js table 1 (λ v. v) (text "") argument (λ v. v) c addr).params)
        (passed c)
unfolding make_request make_params make_param arguments unmarshal_json
decodes listen_addrs addr = tt
decodes node_name addr = tt
decodes head_of_chain addr = tt
decodes actor_address addr = tt
decodes miner_power_of addr = ((_, refl, refl), ((_, refl, refl), tt))
decodes wallet_balance_of addr = ((_, refl, refl), tt)
decodes size_of_sector addr = ((_, refl, refl), ((_, refl, refl), tt))
decodes count_of_sectors addr = ((_, refl, refl), ((_, refl, refl), tt))

reads : (c : Call) → decode (value_type c) (encode (reply_of c)) ≡ decoded (reply_of c)
reads listen_addrs = refl
reads node_name = refl
reads head_of_chain = refl
reads actor_address = refl
reads miner_power_of = refl
reads wallet_balance_of = refl
reads size_of_sector = refl
reads count_of_sectors = refl

reply-Returns : (c : Call) (args : List Reply) → Returns go c args (value_type c) (reply_of c) none
reply-Returns c args = record {
  outs = refl;
  plain = plain_type c;
  err = text "";
  called = refl;
  says = refl;
  not_nil = refl;
  no_channel = refl;
}

serves :
    (c : Call) (addr : String)
    → Serves go side js table 1 (λ v. v) (text "") argument (λ v. v) c addr (reply_of c)
serves c addr = record {
  receiver = text "";
  func = c;
  entry = entry_of c;
  params = passed c;
  bytes = encode (reply_of c);
  in_table = in_table c;
  registered = registers c;
  decodes = decodes c addr;
  method_returns = reply-Returns c _;
  encodes = refl;
  reads = reads c;
}

abbrev split : String → List String
split s = "" ∷ "ip4" ∷ "10.0.0.3" ∷ []

abbrev answers : Answers
answers = record {
  addrs = "/ip4/10.0.0.2" ∷ "/ip4/10.0.0.3" ∷ [];
  second = "/ip4/10.0.0.3";
  ip = "10.0.0.3";
  name = "node";
  head = 51174;
  miner = "t06266";
  power_of = some (pos 1000);
  wallet = some (pos 7);
  size = 32;
  count = 3;
}

served : Served go side js table 1 (λ v. v) (text "") argument (λ v. v) split (λ s. s) "" answers
served = record {
  addrs = (_, serves listen_addrs "", refl);
  second = refl;
  part = refl;
  name = (_, serves node_name "", refl);
  head = (_, serves head_of_chain "", refl);
  miner = (_, serves actor_address "", refl);
  power = (_, serves miner_power_of "t06266", refl);
  wallet = (_, serves wallet_balance_of "t06266", refl);
  size = (_, serves size_of_sector "t06266", refl);
  count = (_, serves count_of_sectors "t06266", refl);
}

poll-Served_example :
    poll
      (node_of true
        (first_call go side js table 1 (λ v. v) (text "") argument (λ v. v))
        split
        (λ s. s))
      initial
      ""
    ≡ ok (report_of answers initial, "t06266")
poll-Served_example =
    poll-Served go side js table 1 (λ v. v) (text "") argument (λ v. v) split (λ s. s) "" answers
      initial served

no_methods :
    ◌≡◌ {A = Option (RpcHandler Reply Call)}
      (lookup ("Filecoin" <> ("." <> (field node_name).name)) [])
      none
no_methods = refl

poll-missing_example :
    poll
      (node_of true
        (first_call go side js [] 1 (λ v. v) (text "") argument (λ v. v))
        split
        (λ s. s))
      initial
      ""
    ≢ ok (initial, "")
poll-missing_example =
    poll-missing go side js [] 1 (λ v. v) (text "") argument (λ v. v) split (λ s. s) node_name
      initial "" (initial, "") refl no_methods
