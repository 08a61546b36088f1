-- ===== src/Dashboard/Poll.antt =====
-- clientrpc.go: one round of the poller's loop, from the calls to the report.
pub mod Machine
pub mod Survival
pub mod Healthy
pub mod Calls
pub mod Refusals
pub mod Reports
pub mod Remote
mod Examples
use lotus_dashboard.Common.{
  ℕ, ◌*◌, ◌%◌, ◌^◌, String, List, [], ◌∷◌, Bool, true, false, Option, none, some, Result, ok, fault,
  ◌>>=◌, ◌>>◌, or_fault, index_out_of_range, nil_dereference, nil_call, type_assertion, get_elem?,
}
use lotus_dashboard.Common.Int.{ℤ}
use lotus_dashboard.Rpc.Client.Connect.{Client, connected, failed}
use lotus_dashboard.Dashboard.Report.{Lotus, BigInt, big_zero, transmit}

-- What an `interface{}` holds that the calls give: the addresses of a peer, a text, a tipset (its
-- height, or nil), a miner's power (of which the total is not read), a big integer, a uint64, or
-- the counts of sectors (of which the second is not read).
pub data Reply : Type 0 where
  addr_info : List String → Reply
  text : String → Reply
  tip_set : Option ℕ → Reply
  power_of_miner : BigInt → Reply
  big_int : BigInt → Reply
  uint64 : ℕ → Reply
  miner_sectors : ℕ → Reply

-- The eight structs of one function each.
pub data Call : Type 0 where
  listen_addrs node_name head_of_chain actor_address : Call
  miner_power_of wallet_balance_of size_of_sector count_of_sectors : Call

-- A multiaddress and an address go by their texts. `split` is `strings.Split(_, "/")`, `parse` is
-- `address.NewFromString` with its error dropped, `rpc` is `client_.NewClient` for a struct and an
-- address.
pub record Node : Type 0 where
  pub split : String → List String
  pub parse : String → String
  pub rpc : Call → String → Result (Client Reply)

-- `closer()`, which is nil if `NewClient` has failed.
unfoldable pub close : Client Reply → Result (Unit {0})
close (connected r) = ok tt
close (failed e) = fault nil_call

module _ (node : Node) where
  open node use {split, parse, rpc}

  -- `strings.Split(data.(peer.AddrInfo).Addrs[1].String(), "/")[2]`
  unfoldable pub listen_address : Client Reply → Result String
  listen_address (connected (some (addr_info addrs))) = do
    a ← or_fault index_out_of_range (get_elem? addrs 1)
    or_fault index_out_of_range (get_elem? (split a) 2)
  listen_address (connected (some r)) = fault type_assertion
  listen_address (connected none) = ok ""
  listen_address (failed e) = ok ""

  unfoldable pub node_id : Client Reply → Result String
  node_id (connected (some (text s))) = ok s
  node_id (connected r) = fault type_assertion
  node_id (failed e) = ok "没有识别id"

  unfoldable pub height : Client Reply → Result ℕ
  height (connected (some (tip_set h))) = or_fault nil_dereference h
  height (connected (some r)) = fault type_assertion
  height (connected none) = ok 0
  height (failed e) = ok 0

  unfoldable pub power : Client Reply → Result BigInt
  power (connected (some (power_of_miner p))) = ok p
  power (connected (some r)) = fault type_assertion
  power (connected none) = ok big_zero
  power (failed e) = ok big_zero

  unfoldable pub balance : Client Reply → Result BigInt
  balance (connected (some (big_int b))) = ok b
  balance (connected (some r)) = fault type_assertion
  balance (connected none) = ok big_zero
  balance (failed e) = ok big_zero

  as_uint64 : Option Reply → Result ℕ
  as_uint64 (some (uint64 n)) = ok n
  as_uint64 r = fault type_assertion

  as_sectors : Option Reply → Result ℕ
  as_sectors (some (miner_sectors n)) = ok n
  as_sectors r = fault type_assertion

  -- `size.(uint64) * count.(MinerSectors).Pset`, which wraps.
  unfoldable pub storage : Client Reply → Client Reply → Result ℕ
  unfolding as_uint64 as_sectors
  storage (connected size) (connected count) = do
    s ← as_uint64 size
    n ← as_sectors count
    ok (s * n % 2 ^ 64)
  storage (connected size) (failed e) = ok 0
  storage (failed e) count = ok 0

  -- The part behind `if err == nil`, for the miner's name.
  unfoldable pub poll_miner : String → Lotus → Result (Lotus × String)
  unfolding power balance storage close
  poll_miner name l = do
    let addr = parse name
    c4 ← rpc miner_power_of addr
    p ← power c4
    c5 ← rpc wallet_balance_of addr
    b ← balance c5
    c6 ← rpc size_of_sector addr
    c7 ← rpc count_of_sectors addr
    s ← storage c6 c7
    close c4
    close c5
    close c6
    close c7
    ok (record l { miner = name; miner_power = p; wallet_balance = b; sector_size = s }, addr)

  unfoldable pub poll_actor : Client Reply → Lotus → String → Result (Lotus × String)
  unfolding poll_miner
  poll_actor (connected (some (text name))) l addr = poll_miner name l
  poll_actor (connected r) l addr = fault type_assertion
  poll_actor (failed e) l addr = ok (l, addr)

  -- One round up to the report: the report and the address, as the round leaves them.
  unfoldable pub poll : Lotus → String → Result (Lotus × String)
  unfolding listen_address node_id height poll_actor close
  poll l addr = do
    c1 ← rpc listen_addrs addr
    ip ← listen_address c1
    c2 ← rpc node_name addr
    name ← node_id c2
    c3 ← rpc head_of_chain addr
    h ← height c3
    m ← rpc actor_address addr
    r ← poll_actor m (record l { net_addrs_listen = ip; id = name; chain_head = h }) addr
    close c1
    close c2
    close c3
    close m
    ok r

  -- The rounds of `for`, each with the answer to its report.
  unfoldable pub poll_rounds :
      {Body : Type 0} → List (Option Body) → Lotus → String → Result (Lotus × String)
  unfolding poll
  poll_rounds [] l addr = ok (l, addr)
  poll_rounds (r ∷ rs) l addr = poll l addr >>= λ s. transmit r >>= λ b. poll_rounds rs s.0 s.1

-- The report that `main` starts from.
unfoldable pub initial : Lotus
initial = record {
  net_addrs_listen = "";
  id = "";
  chain_head = 0;
  miner = "";
  miner_power = none;
  wallet_balance = none;
  sector_size = 0;
  cpu = "24";
  gpu = "INVIDIA 2040";
  mem = "128";
}
