-- ===== src/Dashboard/Poll/Survival.antt =====
-- When a round of the poller returns, and what it reports.
use mathlib.Core.Path.{subst}
use lotus_dashboard.Common.{
  ℕ, ◌≡◌, ap, sym, ◌∙◌, ◌*◌, ◌%◌, ◌^◌, refl, String, Option, none, some, ok, >>=-step, arith,
}
use lotus_dashboard.Rpc.Client.Connect.{Client, connected, failed}
use lotus_dashboard.Dashboard.Report.{Lotus, BigInt}
use lotus_dashboard.Dashboard.Poll.{
  Reply, text, uint64, miner_sectors, listen_addrs, node_name, head_of_chain, actor_address,
  miner_power_of, wallet_balance_of, size_of_sector, count_of_sectors, Node, close, listen_address,
  node_id, height, power, balance, storage, as_uint64, as_sectors, poll_miner, poll_actor, poll,
}
use lotus_dashboard.Dashboard.Poll.Reports.{
  Listens, Rises, Weighs, Owns, Replied, listen_address-Listens, height-Rises, power-Weighs,
  balance-Owns,
}

-- The replies that a round has got at least, and what it reports of them.
pub record Complete (node : Node) (l : Lotus) (addr : String) (l' : Lotus) (addr' : String)
    : Type 0 where
  pub name : String
  pub miner : String
  pub size : ℕ
  pub count : ℕ
  pub name_reply : node.rpc node_name addr ≡ ok (connected (some (text name)))
  pub miner_reply : node.rpc actor_address addr ≡ ok (connected (some (text miner)))
  pub size_reply : node.rpc size_of_sector (node.parse miner) ≡ ok (connected (some (uint64 size)))
  pub count_reply :
      node.rpc count_of_sectors (node.parse miner) ≡ ok (connected (some (miner_sectors count)))
  pub address : addr' ≡ node.parse miner
  pub name_reported : l'.id ≡ name
  pub miner_reported : l'.miner ≡ miner
  pub size_reported : l'.sector_size ≡ size * count % 2 ^ 64
  pub address_reported : Replied node (Listens node) listen_addrs addr l'.net_addrs_listen
  pub height_reported : Replied node Rises head_of_chain addr l'.chain_head
  pub power_reported : Replied node Weighs miner_power_of (node.parse miner) l'.miner_power
  pub balance_reported : Replied node Owns wallet_balance_of (node.parse miner) l'.wallet_balance
  pub machine : (l'.cpu ≡ l.cpu) × (l'.gpu ≡ l.gpu) × (l'.mem ≡ l.mem)

module _ (node : Node) where
  open node use {rpc, parse}

  close-eq-ok : (c : Client Reply) → close c ≡ ok tt → (r : Option Reply) × (c ≡ connected r)
  unfolding close
  close-eq-ok (connected r) e = (r, refl)
  close-eq-ok (failed x) e = absurd (ground arith)

  as_uint64-eq-ok : (a : Option Reply) (n : ℕ) → as_uint64 node a ≡ ok n → a ≡ some (uint64 n)
  unfolding as_uint64
  as_uint64-eq-ok a n e = ground arith

  as_sectors-eq-ok :
      (a : Option Reply) (n : ℕ) → as_sectors node a ≡ ok n → a ≡ some (miner_sectors n)
  unfolding as_sectors
  as_sectors-eq-ok a n e = ground arith

  storage-eq-ok :
      (a b : Option Reply) (n : ℕ)
      → storage node (connected a) (connected b) ≡ ok n
      → (s : ℕ) × (k : ℕ) × (a ≡ some (uint64 s))
        × (b ≡ some (miner_sectors k))
        × (n ≡ s * k % 2 ^ 64)
  unfolding storage
  storage-eq-ok a b n e = >>=-step (as_uint64 node a) _ e λ s es hs.
      >>=-step (as_sectors node b) _ hs
        λ k ek hk. (s, k, as_uint64-eq-ok a s es, as_sectors-eq-ok b k ek, ground arith)

  -- What the part for the miner leaves behind.
  record MinerPart (name : String) (l : Lotus) (r : Lotus × String) : Type 0 where
    size : ℕ
    count : ℕ
    size_reply : rpc size_of_sector (parse name) ≡ ok (connected (some (uint64 size)))
    count_reply : rpc count_of_sectors (parse name) ≡ ok (connected (some (miner_sectors count)))
    address : r.1 ≡ parse name
    same_id : r.0.id ≡ l.id
    same_address : r.0.net_addrs_listen ≡ l.net_addrs_listen
    same_height : r.0.chain_head ≡ l.chain_head
    power_reported : Replied node Weighs miner_power_of (parse name) r.0.miner_power
    balance_reported : Replied node Owns wallet_balance_of (parse name) r.0.wallet_balance
    miner_reported : r.0.miner ≡ name
    size_reported : r.0.sector_size ≡ size * count % 2 ^ 64
    machine : (r.0.cpu ≡ l.cpu) × (r.0.gpu ≡ l.gpu) × (r.0.mem ≡ l.mem)

  miner_part :
      (name : String) (l : Lotus) (c6 c7 : Client Reply) (p b : BigInt) (s : ℕ) (r : Lotus × String)
      → rpc size_of_sector (parse name) ≡ ok c6
      → rpc count_of_sectors (parse name) ≡ ok c7
      → storage node c6 c7 ≡ ok s
      → close c6 ≡ ok tt
      → close c7 ≡ ok tt
      → Replied node Weighs miner_power_of (parse name) p
      → Replied node Owns wallet_balance_of (parse name) b
      → r ≡ (
        record l { miner = name; miner_power = p; wallet_balance = b; sector_size = s },
        parse name,
      )
      → MinerPart name l r
  unfolding close
  miner_part name l (connected a) (connected z) p b s r e6 e7 es k6 k7 pw bl er =
      let (size, count, ea, ez, en) = storage-eq-ok a z s es in
      record {
        size = size;
        count = count;
        size_reply = ground arith;
        count_reply = ground arith;
        address = ground arith;
        same_id = ground arith;
        same_address = ground arith;
        same_height = ground arith;
        power_reported =
            subst (Replied node Weighs miner_power_of (parse name))
              (ap (λ x. x.0.miner_power) (sym er)) pw;
        balance_reported =
            subst (Replied node Owns wallet_balance_of (parse name))
              (ap (λ x. x.0.wallet_balance) (sym er)) bl;
        miner_reported = ground arith;
        size_reported = ground arith;
        machine = ground arith;
      }
  miner_part name l (connected a) (failed x) p b s r e6 e7 es k6 k7 pw bl er = absurd (ground arith)
  miner_part name l (failed x) c7 p b s r e6 e7 es k6 k7 pw bl er = absurd (ground arith)

  poll_miner-MinerPart :
      (name : String) (l : Lotus) (r : Lotus × String)
      → poll_miner node name l ≡ ok r
      → MinerPart name l r
  unfolding poll_miner
  poll_miner-MinerPart name l r h = >>=-step (rpc miner_power_of (parse name)) _ h λ c4 e4 h4.
      >>=-step (power node c4) _ h4 λ p ep hp.
        >>=-step (rpc wallet_balance_of (parse name)) _ hp λ c5 e5 h5.
          >>=-step (balance node c5) _ h5 λ b eb hb.
            >>=-step (rpc size_of_sector (parse name)) _ hb λ c6 e6 h6.
              >>=-step (rpc count_of_sectors (parse name)) _ h6 λ c7 e7 h7.
                >>=-step (storage node c6 c7) _ h7 λ s es hs. >>=-step (close c4) _ hs λ u4 k4 g4.
                  >>=-step (close c5) _ g4 λ u5 k5 g5. >>=-step (close c6) _ g5 λ u6 k6 g6.
                    >>=-step (close c7) _ g6 λ u7 k7 g7.
                      miner_part name l c6 c7 p b s r e6 e7 es k6 k7
                        (power-Weighs node c4 _ p e4 ep k4) (balance-Owns node c5 _ b e5 eb k5)
                        (ground arith)

  actor_part :
      (l : Lotus) (addr : String) (m : Client Reply) (r : Lotus × String)
      → poll_actor node m l addr ≡ ok r
      → close m ≡ ok tt
      → (name : String) × (m ≡ connected (some (text name))) × MinerPart name l r
  unfolding poll_actor close
  actor_part l addr (connected (some (text name))) r h k =
      (name, refl, poll_miner-MinerPart name l r h)
  actor_part l addr (connected none) r h k = absurd (ground arith)
  actor_part l addr (failed x) r h k = absurd (ground arith)
  actor_part l addr m r h k = absurd (ground arith)

  id_part :
      (c : Client Reply) (name : String)
      → node_id node c ≡ ok name
      → close c ≡ ok tt
      → c ≡ connected (some (text name))
  unfolding node_id close
  id_part c name e k = ground arith

  complete :
      (l l' : Lotus) (addr addr' name ip : String) (h : ℕ) (c2 m : Client Reply)
      (r : Lotus × String)
      → Replied node (Listens node) listen_addrs addr ip
      → Replied node Rises head_of_chain addr h
      → rpc node_name addr ≡ ok c2
      → node_id node c2 ≡ ok name
      → close c2 ≡ ok tt
      → rpc actor_address addr ≡ ok m
      → poll_actor node m (record l { net_addrs_listen = ip; id = name; chain_head = h }) addr
        ≡ ok r
      → close m ≡ ok tt
      → r ≡ (l', addr')
      → Complete node l addr l' addr'
  complete l l' addr addr' name ip h c2 m r ls hs e2 en k2 em er k4 g =
      let e = id_part c2 name en k2 in
      let (miner, em', part) = actor_part _ addr m r er k4 in
      let now : r.0 ≡ l' = ap (λ x. x.0) g in
      let there : r.1 ≡ addr' = ap (λ x. x.1) g in
      record {
        name = name;
        miner = miner;
        size = part.size;
        count = part.count;
        name_reply = e2 ∙ ap ok e;
        miner_reply = em ∙ ap ok em';
        size_reply = part.size_reply;
        count_reply = part.count_reply;
        address = sym there ∙ part.address;
        name_reported = ap (λ x. x.id) (sym now) ∙ part.same_id;
        miner_reported = ap (λ x. x.miner) (sym now) ∙ part.miner_reported;
        size_reported = ap (λ x. x.sector_size) (sym now) ∙ part.size_reported;
        address_reported =
            subst (Replied node (Listens node) listen_addrs addr)
              (sym part.same_address ∙ ap (λ x. x.net_addrs_listen) now) ls;
        height_reported =
            subst (Replied node Rises head_of_chain addr)
              (sym part.same_height ∙ ap (λ x. x.chain_head) now) hs;
        power_reported =
            subst (Replied node Weighs miner_power_of (parse miner)) (ap (λ x. x.miner_power) now)
              part.power_reported;
        balance_reported =
            subst (Replied node Owns wallet_balance_of (parse miner))
              (ap (λ x. x.wallet_balance) now) part.balance_reported;
        machine = (
          ap (λ x. x.cpu) (sym now) ∙ part.machine.0,
          ap (λ x. x.gpu) (sym now) ∙ part.machine.1,
          ap (λ x. x.mem) (sym now) ∙ part.machine.2,
        );
      }

  -- A round that returns has had a name, a miner's name, a sector size and a sector count from the
  -- node, and reports them: the storage is size times count, modulo 2^64. Of the other four calls,
  -- each of which has had a client, it reports what the reply holds: the listen address, the height,
  -- the power and the balance, or an empty text, 0 and two zeros where there is no reply. The
  -- machine's data are as before.
  pub poll-Complete :
      (l l' : Lotus) (addr addr' : String)
      → poll node l addr ≡ ok (l', addr')
      → Complete node l addr l' addr'
  unfolding poll
  poll-Complete l l' addr addr' h = >>=-step (rpc listen_addrs addr) _ h λ c1 e1 h1.
      >>=-step (listen_address node c1) _ h1 λ ip ei hi.
        >>=-step (rpc node_name addr) _ hi λ c2 e2 h2. >>=-step (node_id node c2) _ h2 λ name en hn.
          >>=-step (rpc head_of_chain addr) _ hn λ c3 e3 h3.
            >>=-step (height node c3) _ h3 λ t et ht.
              >>=-step (rpc actor_address addr) _ ht λ m em hm.
                >>=-step (poll_actor node m _ addr) _ hm λ r er hr.
                  >>=-step (close c1) _ hr λ u1 k1 g1. >>=-step (close c2) _ g1 λ u2 k2 g2.
                    >>=-step (close c3) _ g2 λ u3 k3 g3. >>=-step (close m) _ g3 λ u4 k4 g4.
                      complete l l' addr addr' name ip t c2 m r
                        (listen_address-Listens node c1 addr ip e1 ei k1)
                        (height-Rises node c3 addr t e3 et k3) e2 en k2 em er k4 (ground arith)
