-- ===== src/Dashboard/Poll/Refusals.antt =====
-- A round of the poller through the RPC client, to a node that answers some calls with errors.
use lotus_dashboard.Common.{
  ℕ, ◌≡◌, ◌≢◌, ◌*◌, ◌%◌, ◌^◌, refl, sym, ◌∙◌, String, List, Bool, true, false, none, some, Result,
  ok, arith,
}
use lotus_dashboard.Rpc.Message.{RespError}
use lotus_dashboard.Rpc.Client.{RpcFunc, Slot}
use lotus_dashboard.Rpc.Client.Connect.{Argument, Client, connected}
use lotus_dashboard.Dashboard.Report.{Lotus, big_zero}
use lotus_dashboard.Dashboard.Poll.{
  Reply, text, uint64, miner_sectors, Call, listen_addrs, node_name, head_of_chain, actor_address,
  miner_power_of, wallet_balance_of, size_of_sector, count_of_sectors, poll, poll_miner, power,
  balance, storage, close, listen_address, node_id, height, poll_actor,
}
use lotus_dashboard.Dashboard.Poll.Survival.{poll-Complete}
use lotus_dashboard.Dashboard.Poll.Calls.{node_of, rpc_of, Gives, rpc_of-Gives}

-- The calls whose replies the poller cannot do without.
abbrev pub is_needed : Call → Bool
is_needed node_name = true
is_needed actor_address = true
is_needed size_of_sector = true
is_needed count_of_sectors = true
is_needed c = false

module _ (call : String → RpcFunc → List Argument → Result (List (Slot Reply)))
    (split : String → List String) (parse : String → String) where
  -- The node answers a call with an error.
  abbrev pub Fails : String → Call → Type 0
  Fails addr c = (v : Reply) × (e : RespError) × Gives call addr c v (some e)

  rpc_of-Fails :
      (addr : String) (c : Call) → Fails addr c → rpc_of true call c addr ≡ ok (connected none)
  rpc_of-Fails addr c (v, e, g) = rpc_of-Gives call addr c v (some e) g

  no_reply :
      (c : Call) (addr : String) (w : Reply)
      → Fails addr c
      → rpc_of true call c addr ≢ ok (connected (some w))
  no_reply c addr w f h =
      let k : ◌≡◌ {A = Result (Client Reply)} (ok (connected none)) (ok (connected (some w))) =
        sym (rpc_of-Fails addr c f) ∙ h in
      absurd (ground arith)

  -- If the node answers one of the calls for its name, for the miner's address, for the sector size
  -- or for the sector count with an error, whatever the address, then the round does not return.
  pub poll-error :
      (c : Call) (l : Lotus) (addr : String) (r : Lotus × String)
      → is_needed c ≡ true
      → ((a : String) → Fails a c)
      → poll (node_of true call split parse) l addr ≢ ok r
  unfolding node_of
  poll-error node_name l addr r n g h =
      let q = poll-Complete (node_of true call split parse) l r.0 addr r.1 h in
      no_reply node_name addr _ (g addr) q.name_reply
  poll-error actor_address l addr r n g h =
      let q = poll-Complete (node_of true call split parse) l r.0 addr r.1 h in
      no_reply actor_address addr _ (g addr) q.miner_reply
  poll-error size_of_sector l addr r n g h =
      let q = poll-Complete (node_of true call split parse) l r.0 addr r.1 h in
      no_reply size_of_sector _ _ (g _) q.size_reply
  poll-error count_of_sectors l addr r n g h =
      let q = poll-Complete (node_of true call split parse) l r.0 addr r.1 h in
      no_reply count_of_sectors _ _ (g _) q.count_reply
  poll-error c l addr r n g h = absurd (ground arith)

  -- The needed calls get their values, and the others an error each.
  record JustNeeded (addr name miner : String) (size count : ℕ) : Type 0 where
    listen_reply : Fails addr listen_addrs
    name_reply : Gives call addr node_name (text name) none
    head_reply : Fails addr head_of_chain
    miner_reply : Gives call addr actor_address (text miner) none
    power_reply : Fails (parse miner) miner_power_of
    wallet_reply : Fails (parse miner) wallet_balance_of
    size_reply : Gives call (parse miner) size_of_sector (uint64 size) none
    count_reply : Gives call (parse miner) count_of_sectors (miner_sectors count) none

  poll_miner-JustNeeded :
      (l : Lotus) (addr name miner : String) (size count : ℕ)
      → JustNeeded addr name miner size count
      → poll_miner (node_of true call split parse) miner l
        ≡ ok (
          record l {
            miner = miner;
            miner_power = big_zero;
            wallet_balance = big_zero;
            sector_size = size * count % 2 ^ 64;
          },
          parse miner,
        )
  unfolding node_of poll_miner power balance storage close
  poll_miner-JustNeeded l addr name miner size count h =
      let at = parse miner in
      rw
        (
          rpc_of-Fails at miner_power_of h.power_reply,
          rpc_of-Fails at wallet_balance_of h.wallet_reply,
          rpc_of-Gives call at size_of_sector (uint64 size) none h.size_reply,
          rpc_of-Gives call at count_of_sectors (miner_sectors count) none h.count_reply,
        )
        refl

  -- If the node answers the calls for its name, for the miner's address, for the sector size and for
  -- the sector count with values, and every other call with an error, then the round returns: the
  -- report has the name, the miner and the storage, modulo 2^64, and an empty listen address, height
  -- 0, and no power and no balance; the machine's data stay as they were.
  poll-JustNeeded :
      (l : Lotus) (addr name miner : String) (size count : ℕ)
      → JustNeeded addr name miner size count
      → poll (node_of true call split parse) l addr
        ≡ ok (
          record {
            net_addrs_listen = "";
            id = name;
            chain_head = 0;
            miner = miner;
            miner_power = big_zero;
            wallet_balance = big_zero;
            sector_size = size * count % 2 ^ 64;
            cpu = l.cpu;
            gpu = l.gpu;
            mem = l.mem;
          },
          parse miner,
        )
  unfolding node_of poll listen_address node_id height poll_actor close
  poll-JustNeeded l addr name miner size count h =
      rw
        (
          rpc_of-Fails addr listen_addrs h.listen_reply,
          poll,
          rpc_of-Gives call addr node_name (text name) none h.name_reply,
          rpc_of-Fails addr head_of_chain h.head_reply,
          rpc_of-Gives call addr actor_address (text miner) none h.miner_reply,
          poll_miner-JustNeeded (record l { net_addrs_listen = ""; id = name; chain_head = 0 }) addr
              name miner size count h,
        )
        refl
