-- ===== src/Dashboard/Report.antt =====
-- server.go: the report that is sent to the dashboard, and how it is sent.
pub mod Conn
use lotus_dashboard.Common.{ℕ, String, Option, none, some, Result, ok, fault, nil_dereference}
use lotus_dashboard.Common.Int.{ℤ, pos}

-- `types.BigInt` holds a `*big.Int`, which may be nil.
abbrev pub BigInt : Type 0
BigInt = Option ℤ

abbrev pub big_zero : BigInt
big_zero = some (pos 0)

-- `server.Lotus`.
pub record Lotus : Type 0 where
  pub net_addrs_listen : String
  pub id : String
  pub chain_head : ℕ
  pub miner : String
  pub miner_power : BigInt
  pub wallet_balance : BigInt
  pub sector_size : ℕ
  pub cpu : String
  pub gpu : String
  pub mem : String

-- `NewTransmitClient`: the answer of the POST is read, and printed. An error of the POST is not
-- returned, and the nil response is read; what is sent or printed is not looked at here.
unfoldable pub transmit : {Body : Type 0} → Option Body → Result Body
transmit none = fault nil_dereference
transmit (some body) = ok body
