-- ===== src/Dashboard/Local/Examples.antt =====
-- A round of the poller against the stand-in node.
use mathlib.Core.Path.{subst}
use lotus_dashboard.Common.{
  ℕ, zero, suc, ◌≡◌, refl, String, List, [], ◌∷◌, true, false, Option, none, some, Result, ok,
  fault, string_eq, ◌==◌, if◌then◌else◌,
}
use lotus_dashboard.Common.Int.{pos}
use lotus_dashboard.Rpc.Message.{Bytes}
use lotus_dashboard.Rpc.Util.{GoType, FuncType, named, error_type}
use lotus_dashboard.Rpc.Handler.{Reflect, Decoded, decoded, undecodable, Called, returned, panicked}
use lotus_dashboard.Rpc.Handler.Span.{Tracing}
use lotus_dashboard.Rpc.Server.{RpcServer}
use lotus_dashboard.Rpc.Websocket.{Json}
use lotus_dashboard.Rpc.Client.{ClientSide}
use lotus_dashboard.Rpc.Client.Connect.{Argument, background, address, nil_tipset}
use lotus_dashboard.Dashboard.Report.{Lotus}
use lotus_dashboard.Dashboard.Poll.{
  Reply, addr_info, text, tip_set, power_of_miner, big_int, uint64, miner_sectors, Call,
  listen_addrs, node_name, head_of_chain, actor_address, miner_power_of, wallet_balance_of,
  size_of_sector, count_of_sectors, poll, initial,
}
use lotus_dashboard.Dashboard.Poll.Calls.{node_of}
use lotus_dashboard.Dashboard.Poll.Healthy.{report_of}
use lotus_dashboard.Dashboard.Poll.Remote.{inputs, value_type, first_call}
use lotus_dashboard.Dashboard.Local.{local_reply, local_net_addrs_listen}
use lotus_dashboard.Dashboard.Local.Server.{local_main}
use lotus_dashboard.Dashboard.Local.Served.{Understands, poll-local_main}

data Val : Type 0 where
  reply : Reply → Val
  an_address no_tip_set no_error handler : Val
  in_context : ℕ → Val

-- The three addresses belong to one peer.
abbrev peers : List String → List (List String)
peers a = ("/ip4/127.0.0.1/tcp/12000" ∷ "/ip4/192.168.0.10/tcp/12000" ∷ []) ∷ []

abbrev height_of : Option ℕ
height_of = some 51174

abbrev numbered : ℕ → Val
numbered zero = reply (addr_info ("/ip4/127.0.0.1/tcp/12000" ∷ "/ip4/192.168.0.10/tcp/12000" ∷ []))
numbered (suc zero) = reply (text "12D3KooWH7GXgKS4gshpFrbYQ6UxzHeJxfqz5FyfhCn2RnNjofph")
numbered (suc (suc zero)) = reply (tip_set (some 51174))
numbered (suc (suc (suc zero))) = reply (text "t06266")
numbered (suc (suc (suc (suc zero)))) = reply (power_of_miner (some (pos 1000)))
numbered (suc (suc (suc (suc (suc zero))))) = reply (big_int (some (pos 487776486641635185)))
numbered (suc (suc (suc (suc (suc (suc zero)))))) = reply (uint64 1073741824)
numbered (suc (suc (suc (suc (suc (suc (suc zero))))))) = reply (miner_sectors 49)
numbered (suc (suc (suc (suc (suc (suc (suc (suc zero)))))))) = an_address
numbered n = no_tip_set

abbrev reply_bytes : Reply → Bytes
reply_bytes (addr_info a) = 0 ∷ []
reply_bytes (text s) = if s == "t06266" then 3 ∷ [] else 1 ∷ []
reply_bytes (tip_set h) = 2 ∷ []
reply_bytes (power_of_miner p) = 4 ∷ []
reply_bytes (big_int b) = 5 ∷ []
reply_bytes (uint64 n) = 6 ∷ []
reply_bytes (miner_sectors n) = 7 ∷ []

abbrev encode : Val → Option Bytes
encode (reply r) = some (reply_bytes r)
encode an_address = some (8 ∷ [])
encode v = some (9 ∷ [])

abbrev decode : GoType → Bytes → Decoded Val
decode t (n ∷ []) = decoded (numbered n)
decode t b = undecodable "unexpected end of JSON input"

abbrev replies_with : Result Reply → Called Val
replies_with (ok w) = returned (reply w ∷ no_error ∷ [])
replies_with (fault e) = panicked "runtime error"

abbrev method_type : Call → FuncType
method_type c = record {
  ins = named "*main.SimpleServerHandler" ∷ inputs c;
  outs = value_type c ∷ error_type ∷ [];
}

abbrev go : Reflect
go = record {
  Value = Val;
  Func = Call;
  func_type = method_type;
  func_text = λ f. "<func Value>";
  call = λ f args. replies_with (local_reply peers height_of f);
  context_value = in_context;
  decode = decode;
  value_of = λ v. v;
  interface = λ v. some v;
  error_text = λ v. none;
  is_chan = λ v. false;
}

abbrev side : ClientSide Val
side = record {
  zero_value = λ t. no_tip_set;
  marshal = encode;
  unmarshal = decode;
  span_binary = λ n. n ∷ [];
  base64_encode = λ b. "";
}

abbrev js : Json Val
js = record {
  unmarshal_int64 = λ b. none;
  unmarshal_uint64 = λ b. none;
  int64_value = λ n. no_tip_set;
  uint64_value = λ n. no_tip_set;
}

abbrev untraced : Tracing
untraced = record {
  SpanContext = ℕ;
  base64_decode = λ s. none;
  base64_encode = λ b. "";
  from_binary = λ b. none;
  binary = λ n. [];
  start_remote = λ ctx name n. ctx;
}

abbrev argument : String → Argument → Val
argument addr background = in_context 0
argument addr address = an_address
argument addr nil_tipset = no_tip_set

abbrev held_reply : Val → Reply
held_reply (reply r) = r
held_reply v = text ""

reads_one :
    (t : GoType) (v w : Reply)
    → decode t (reply_bytes v) ≡ decoded (reply v)
    → ◌≡◌ {A = Result Reply} (ok v) (ok w)
    → decode t (reply_bytes w) ≡ decoded (reply w)
reads_one t v w r e = subst (λ x. decode t (reply_bytes x) ≡ decoded (reply x)) (ok_inj e) r
  where
    ok_inj : {a b : Reply} → ◌≡◌ {A = Result Reply} (ok a) (ok b) → a ≡ b
    ok_inj f = cc

reads_back :
    (c : Call) (w : Reply)
    → local_reply peers height_of c ≡ ok w
    → decode (value_type c) (reply_bytes w) ≡ decoded (reply w)
unfolding local_reply local_net_addrs_listen
reads_back listen_addrs w e =
    reads_one (value_type listen_addrs)
      (addr_info ("/ip4/127.0.0.1/tcp/12000" ∷ "/ip4/192.168.0.10/tcp/12000" ∷ [])) w refl e
reads_back node_name w e =
    reads_one (value_type node_name) (text "12D3KooWH7GXgKS4gshpFrbYQ6UxzHeJxfqz5FyfhCn2RnNjofph") w
      refl e
reads_back head_of_chain w e = reads_one (value_type head_of_chain) (tip_set (some 51174)) w refl e
reads_back actor_address w e = reads_one (value_type actor_address) (text "t06266") w refl e
reads_back miner_power_of w e =
    reads_one (value_type miner_power_of) (power_of_miner (some (pos 1000))) w refl e
reads_back wallet_balance_of w e =
    reads_one (value_type wallet_balance_of) (big_int (some (pos 487776486641635185))) w refl e
reads_back size_of_sector w e = reads_one (value_type size_of_sector) (uint64 1073741824) w refl e
reads_back count_of_sectors w e =
    reads_one (value_type count_of_sectors) (miner_sectors 49) w refl e

understands : Understands peers height_of go untraced handler (λ c. c) side 1 argument held_reply
understands = record {
  types = λ c. refl;
  nil_error = no_error;
  nil_error_text = refl;
  held = reply;
  addr_held = λ a. an_address;
  tip_set_held = no_tip_set;
  addr_bytes = λ a. 8 ∷ [];
  tip_set_bytes = 9 ∷ [];
  addr_encodes = λ a. refl;
  tip_set_encodes = λ a. refl;
  addr_decodes = λ a. refl;
  tip_set_decodes = refl;
  addr_passed = λ a. refl;
  tip_set_passed = refl;
  calls = λ c a w e. rw e refl;
  not_nil = λ w. refl;
  no_channel = λ w. refl;
  bytes_of = reply_bytes;
  encodes = λ w. refl;
  reads = reads_back;
  as_held = λ w. refl;
}

abbrev third_part : String → List String
third_part s = "" ∷ "ip4" ∷ "192.168.0.10" ∷ []

-- What the poller reports of the stand-in.
abbrev report : Lotus
report = record {
  net_addrs_listen = "192.168.0.10";
  id = "12D3KooWH7GXgKS4gshpFrbYQ6UxzHeJxfqz5FyfhCn2RnNjofph";
  chain_head = 51174;
  miner = "t06266";
  miner_power = some (pos 1000);
  wallet_balance = some (pos 487776486641635185);
  sector_size = 52613349376;
  cpu = initial.cpu;
  gpu = initial.gpu;
  mem = initial.mem;
}

poll-local_main_example :
    (server : RpcServer go) × (local_main peers height_of go untraced handler (λ c. c) ≡ ok server)
    × (poll
          (node_of true
            (first_call go side js server.methods 1 (λ v. v) no_tip_set argument held_reply)
            third_part
            (λ s. s))
          initial
          ""
        ≡ ok (report, "t06266"))
unfolding report_of
poll-local_main_example =
    poll-local_main peers height_of go untraced handler (λ c. c) side js 1 (λ v. v) no_tip_set
      argument held_reply understands third_part (λ s. s) "" initial
      ("/ip4/127.0.0.1/tcp/12000" ∷ "/ip4/192.168.0.10/tcp/12000" ∷ [])
      "/ip4/192.168.0.10/tcp/12000" "192.168.0.10" 51174 refl refl refl refl
