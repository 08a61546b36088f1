-- ===== src/Dashboard/Local.antt =====
-- localserver.go: the stand-in for a node, with the values its methods give.
pub mod Server
pub mod Served
mod Examples
use lotus_dashboard.Common.{
  ℕ, String, List, [], ◌∷◌, some, Option, Result, ok, ◌>>=◌, or_fault, get_elem?,
  index_out_of_range, nil_dereference,
}
use lotus_dashboard.Common.Int.{pos}
use lotus_dashboard.Dashboard.Poll.{
  Reply, addr_info, text, tip_set, power_of_miner, big_int, uint64, miner_sectors, Call,
  listen_addrs, node_name, head_of_chain, actor_address, miner_power_of, wallet_balance_of,
  size_of_sector, count_of_sectors,
}

abbrev pub local_addresses : List String
local_addresses =
    "/ip4/127.0.0.1/tcp/12000/ipfs/12D3KooWH7GXgKS4gshpFrbYQ6UxzHeJxfqz5FyfhCn2RnNjofph"
    ∷ "/ip4/192.168.0.10/tcp/12000/ipfs/12D3KooWH7GXgKS4gshpFrbYQ6UxzHeJxfqz5FyfhCn2RnNjofph"
    ∷ "/ip6/::1/tcp/12000/ipfs/12D3KooWH7GXgKS4gshpFrbYQ6UxzHeJxfqz5FyfhCn2RnNjofph" ∷ []

-- `addrutil.ParseAddresses` gives the peers of a list of addresses, each with its addresses;
-- `height` is the height of the tipset of one block of height 51174 that `types.NewTipSet` gives,
-- or nothing for a nil tipset, whose height `ChainHead` reads.
module _ (parse_addresses : List String → List (List String)) (tip_set_height : Option ℕ) where
  unfoldable pub local_net_addrs_listen : Result Reply
  local_net_addrs_listen = do
    a ← or_fault index_out_of_range (get_elem? (parse_addresses local_addresses) 0)
    ok (addr_info a)

  -- The methods of `SimpleServerHandler`, by what is called.
  unfoldable pub local_reply : Call → Result Reply
  unfolding local_net_addrs_listen
  local_reply listen_addrs = local_net_addrs_listen
  local_reply node_name = ok (text "12D3KooWH7GXgKS4gshpFrbYQ6UxzHeJxfqz5FyfhCn2RnNjofph")
  local_reply head_of_chain = do h ← or_fault nil_dereference tip_set_height; ok (tip_set (some h))
  local_reply actor_address = ok (text "t06266")
  local_reply miner_power_of = ok (power_of_miner (some (pos 1000)))
  local_reply wallet_balance_of = ok (big_int (some (pos 487776486641635185)))
  local_reply size_of_sector = ok (uint64 1073741824)
  local_reply count_of_sectors = ok (miner_sectors 49)
