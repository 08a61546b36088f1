-- ===== src/Dashboard/Poll/Examples.antt =====
-- A round of the poller against the stand-in node.
mod Remote
use lotus_dashboard.Common.{
  ◌≡◌, refl, String, List, [], ◌∷◌, none, some, Result, ok, fault, nil_dereference, string_eq, ◌==◌,
  if◌then◌else◌, ap, ◌≢◌, arith, true,
}
use lotus_dashboard.Common.Int.{pos}
use lotus_dashboard.Rpc.Client.Connect.{Client, connected, Argument}
use lotus_dashboard.Rpc.Message.{RespError}
use lotus_dashboard.Rpc.Util.{process_func_out}
use lotus_dashboard.Rpc.Client.{RpcFunc, made, Slot, value, error, make_rpc_func}
use lotus_dashboard.Dashboard.Report.{big_zero}
use lotus_dashboard.Dashboard.Poll.Calls.{field, node_of}
use lotus_dashboard.Dashboard.Poll.Refusals.{poll-error}
use lotus_dashboard.Dashboard.Local.{local_addresses, local_net_addrs_listen, local_reply}
use lotus_dashboard.Dashboard.Poll.{
  Reply, text, uint64, miner_sectors, Call, listen_addrs, node_name, head_of_chain, actor_address,
  miner_power_of, wallet_balance_of, size_of_sector, count_of_sectors, Node, poll, poll_rounds,
  initial,
}
use lotus_dashboard.Dashboard.Poll.Healthy.{
  Answers, Healthy, report_of, poll-Healthy, poll_rounds-Healthy,
}
use lotus_dashboard.Dashboard.Poll.Survival.{Complete, poll-Complete}

-- One peer with all the addresses.
abbrev one_peer : List String → List (List String)
one_peer a = a ∷ []

abbrev connect_local : Result Reply → Result (Client Reply)
connect_local (ok r) = ok (connected (some r))
connect_local (fault e) = fault e

-- The node of localserver.go; the address that it gets is not looked at.
abbrev stand_in : Node
stand_in = record {
  split = λ s. "" ∷ "ip4" ∷ "192.168.0.10" ∷ [];
  parse = λ s. s;
  rpc = λ c addr. connect_local (local_reply one_peer (some 51174) c);
}

abbrev stand_in_answers : Answers
stand_in_answers = record {
  addrs = local_addresses;
  second = "/ip4/192.168.0.10/tcp/12000/ipfs/12D3KooWH7GXgKS4gshpFrbYQ6UxzHeJxfqz5FyfhCn2RnNjofph";
  ip = "192.168.0.10";
  name = "12D3KooWH7GXgKS4gshpFrbYQ6UxzHeJxfqz5FyfhCn2RnNjofph";
  head = 51174;
  miner = "t06266";
  power_of = some (pos 1000);
  wallet = some (pos 487776486641635185);
  size = 1073741824;
  count = 49;
}

stand_in-Healthy : Healthy stand_in "" stand_in_answers
unfolding local_reply local_net_addrs_listen
stand_in-Healthy = record {
  addrs_reply = refl;
  second_addr = refl;
  ip_part = refl;
  name_reply = refl;
  head_reply = refl;
  miner_reply = refl;
  power_reply = refl;
  wallet_reply = refl;
  size_reply = refl;
  count_reply = refl;
}

poll_rounds-Healthy_example :
    (poll_rounds stand_in {Body = String} (some "saved" ∷ none ∷ []) initial ""
      ≡ poll_rounds stand_in {Body = String}
          (none ∷ [])
          (report_of stand_in_answers initial)
          "t06266")
    × (poll_rounds stand_in {Body = String} (none ∷ none ∷ []) initial "" ≡ fault nil_dereference)
poll_rounds-Healthy_example =
    poll_rounds-Healthy stand_in "" stand_in_answers stand_in-Healthy "saved" (none ∷ []) initial

poll-Complete_example : Complete stand_in initial "" (report_of stand_in_answers initial) "t06266"
poll-Complete_example =
    poll-Complete stand_in initial (report_of stand_in_answers initial) "" "t06266"
      (poll-Healthy stand_in "" stand_in_answers stand_in-Healthy initial)

-- The report says 49 sectors of 2^30 bytes.
reported_size : (report_of stand_in_answers initial).sector_size ≡ 52613349376
unfolding report_of
reported_size = refl

-- What the node says to a call that it needs not answer.
abbrev no_actor : RespError
no_actor = record { code = pos 1; message = "actor not found" }

-- A node that answers every call with an error.
abbrev refuses : String → RpcFunc → List Argument → Result (List (Slot Reply))
refuses addr fn args = ok (value (text "") ∷ error (some no_actor) ∷ [])

poll-error_example : poll (node_of true refuses (λ s. []) (λ s. s)) initial "" ≢ ok (initial, "")
poll-error_example =
    poll-error refuses (λ s. []) (λ s. s) node_name initial "" (initial, "") refl
      (λ a. (text "", no_actor, λ fn m. refl))
