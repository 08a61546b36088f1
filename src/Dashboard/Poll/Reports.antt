-- ===== src/Dashboard/Poll/Reports.antt =====
-- What a round reports of the replies that it can do without.
use lotus_dashboard.Common.{
  get_elem?, or_fault, index_out_of_range, ℕ, ◌≡◌, String, Option, none, some, ok, >>=-step, arith,
}
use lotus_dashboard.Rpc.Client.Connect.{Client, connected, failed}
use lotus_dashboard.Dashboard.Report.{BigInt, big_zero}
use lotus_dashboard.Dashboard.Poll.{
  Reply, Call, addr_info, tip_set, power_of_miner, big_int, listen_addrs, head_of_chain,
  miner_power_of, wallet_balance_of, Node, close, listen_address, height, power, balance,
}

-- What is reported of the replies that may be missing: an address, a height, and two big integers.
module _ (node : Node) where
  abbrev pub Listens : Option Reply → String → Type 0
  Listens none ip = ip ≡ ""
  Listens (some (addr_info addrs)) ip =
      (a : String) × (get_elem? addrs 1 ≡ some a) × (get_elem? (node.split a) 2 ≡ some ip)
  Listens r ip = ⊥

abbrev pub Rises : Option Reply → ℕ → Type 0
Rises none h = h ≡ 0
Rises (some (tip_set t)) h = t ≡ some h
Rises r h = ⊥

abbrev pub Weighs : Option Reply → BigInt → Type 0
Weighs none p = p ≡ big_zero
Weighs (some (power_of_miner q)) p = p ≡ q
Weighs r p = ⊥

abbrev pub Owns : Option Reply → BigInt → Type 0
Owns none b = b ≡ big_zero
Owns (some (big_int c)) b = b ≡ c
Owns r b = ⊥

-- A call whose client was made, with or without a reply, and what is reported of that.
abbrev pub Replied : {A : Type 0} → Node → (Option Reply → A → Type 0) → Call → String → A → Type 0
Replied node Reports c addr x =
    (a : Option Reply) × (node.rpc c addr ≡ ok (connected a)) × Reports a x

module _ (node : Node) where
  open node use {rpc}

  pub listen_address-Listens :
      (c : Client Reply) (addr ip : String)
      → rpc listen_addrs addr ≡ ok c
      → listen_address node c ≡ ok ip
      → close c ≡ ok tt
      → Replied node (Listens node) listen_addrs addr ip
  unfolding listen_address close
  listen_address-Listens (connected none) addr ip e h k = (none, e, ground arith)
  listen_address-Listens (connected (some (addr_info addrs))) addr ip e h k =
      >>=-step (or_fault index_out_of_range (get_elem? addrs 1)) _ h
        λ a p q. (some (addr_info addrs), e, (a, ground arith, ground arith))
  listen_address-Listens (failed x) addr ip e h k = absurd (ground arith)
  listen_address-Listens c addr ip e h k = absurd (ground arith)

  pub height-Rises :
      (c : Client Reply) (addr : String) (t : ℕ)
      → rpc head_of_chain addr ≡ ok c
      → height node c ≡ ok t
      → close c ≡ ok tt
      → Replied node Rises head_of_chain addr t
  unfolding height close
  height-Rises (connected none) addr t e h k = (none, e, ground arith)
  height-Rises (connected (some (tip_set x))) addr t e h k = (some (tip_set x), e, ground arith)
  height-Rises (failed x) addr t e h k = absurd (ground arith)
  height-Rises c addr t e h k = absurd (ground arith)

  pub power-Weighs :
      (c : Client Reply) (addr : String) (p : BigInt)
      → rpc miner_power_of addr ≡ ok c
      → power node c ≡ ok p
      → close c ≡ ok tt
      → Replied node Weighs miner_power_of addr p
  unfolding power close
  power-Weighs (connected none) addr p e h k = (none, e, ground arith)
  power-Weighs (connected (some (power_of_miner q))) addr p e h k =
      (some (power_of_miner q), e, ground arith)
  power-Weighs (failed x) addr p e h k = absurd (ground arith)
  power-Weighs c addr p e h k = absurd (ground arith)

  pub balance-Owns :
      (c : Client Reply) (addr : String) (b : BigInt)
      → rpc wallet_balance_of addr ≡ ok c
      → balance node c ≡ ok b
      → close c ≡ ok tt
      → Replied node Owns wallet_balance_of addr b
  unfolding balance close
  balance-Owns (connected none) addr b e h k = (none, e, ground arith)
  balance-Owns (connected (some (big_int x))) addr b e h k = (some (big_int x), e, ground arith)
  balance-Owns (failed x) addr b e h k = absurd (ground arith)
  balance-Owns c addr b e h k = absurd (ground arith)
