-- ===== src/Dashboard/Poll/Healthy.antt =====
-- A round of the poller against a node that answers every call.
use lotus_dashboard.Common.{
  ℕ, ◌≡◌, ◌*◌, ◌%◌, ◌^◌, refl, String, List, Option, some, none, ok, fault, get_elem?, ◌∷◌,
  nil_dereference,
}
use lotus_dashboard.Dashboard.Report.{Lotus, BigInt, transmit}
use lotus_dashboard.Rpc.Client.Connect.{connected}
use lotus_dashboard.Dashboard.Poll.{
  addr_info, text, tip_set, power_of_miner, big_int, uint64, miner_sectors, listen_addrs, node_name,
  head_of_chain, actor_address, miner_power_of, wallet_balance_of, size_of_sector, count_of_sectors,
  Node, poll, poll_miner, poll_actor, listen_address, node_id, height, power, balance, storage,
  close, poll_rounds,
}

-- What a node answers, in the words of the report.
pub record Answers : Type 0 where
  pub addrs : List String
  pub second : String
  pub ip : String
  pub name : String
  pub head : ℕ
  pub miner : String
  pub power_of : BigInt
  pub wallet : BigInt
  pub size : ℕ
  pub count : ℕ

-- Every call of a round gets its answer: the first four with the address of the round before, the
-- others with the miner's. There is a second listen address, with a third part.
pub record Healthy (node : Node) (addr : String) (a : Answers) : Type 0 where
  pub addrs_reply : node.rpc listen_addrs addr ≡ ok (connected (some (addr_info a.addrs)))
  pub second_addr : get_elem? a.addrs 1 ≡ some a.second
  pub ip_part : get_elem? (node.split a.second) 2 ≡ some a.ip
  pub name_reply : node.rpc node_name addr ≡ ok (connected (some (text a.name)))
  pub head_reply : node.rpc head_of_chain addr ≡ ok (connected (some (tip_set (some a.head))))
  pub miner_reply : node.rpc actor_address addr ≡ ok (connected (some (text a.miner)))
  pub power_reply :
      node.rpc miner_power_of (node.parse a.miner)
      ≡ ok (connected (some (power_of_miner a.power_of)))
  pub wallet_reply :
      node.rpc wallet_balance_of (node.parse a.miner) ≡ ok (connected (some (big_int a.wallet)))
  pub size_reply :
      node.rpc size_of_sector (node.parse a.miner) ≡ ok (connected (some (uint64 a.size)))
  pub count_reply :
      node.rpc count_of_sectors (node.parse a.miner) ≡ ok (connected (some (miner_sectors a.count)))

-- The report that such answers make of a machine's data.
unfoldable pub report_of : Answers → Lotus → Lotus
report_of a l = record {
  net_addrs_listen = a.ip;
  id = a.name;
  chain_head = a.head;
  miner = a.miner;
  miner_power = a.power_of;
  wallet_balance = a.wallet;
  sector_size = a.size * a.count % 2 ^ 64;
  cpu = l.cpu;
  gpu = l.gpu;
  mem = l.mem;
}

module _ (node : Node) (addr : String) (a : Answers) (h : Healthy node addr a) where
  poll_miner-Healthy :
      (l : Lotus)
      → poll_miner node a.miner l
        ≡ ok (
          record l {
            miner = a.miner;
            miner_power = a.power_of;
            wallet_balance = a.wallet;
            sector_size = a.size * a.count % 2 ^ 64;
          },
          node.parse a.miner,
        )
  unfolding poll_miner power balance storage close
  poll_miner-Healthy l = rw (h.power_reply, h.wallet_reply, h.size_reply, h.count_reply) refl

  pub poll-Healthy : (l : Lotus) → poll node l addr ≡ ok (report_of a l, node.parse a.miner)
  unfolding poll listen_address node_id height poll_actor close report_of
  poll-Healthy l =
      rw
        (
          h.addrs_reply,
          poll,
          h.second_addr,
          h.ip_part,
          h.name_reply,
          h.head_reply,
          h.miner_reply,
          poll_miner-Healthy
              (record l { net_addrs_listen = a.ip; id = a.name; chain_head = a.head }),
        )
        refl

  -- A round in which the node answers every call reports the answers, and the poller goes on with
  -- the miner's address: if the report can be posted the rounds after it are run from there, and if
  -- it cannot the poller stops, whatever was to come.
  pub poll_rounds-Healthy :
      {Body : Type 0} (b : Body) (rs : List (Option Body)) (l : Lotus)
      → (poll_rounds node (some b ∷ rs) l addr
          ≡ poll_rounds node rs (report_of a l) (node.parse a.miner))
        × (poll_rounds node (none ∷ rs) l addr ≡ fault nil_dereference)
  unfolding poll_rounds transmit
  poll_rounds-Healthy b rs l = (rw (poll-Healthy l) refl, rw (poll-Healthy l) refl)
