-- ===== src/Rpc/Link/Ids.antt =====
-- The id of the call with a number, and that no other call has it.
use lotus_dashboard.Common.{ℕ, ◌≡◌, ◌<◌, ◌^◌, refl, sym, ap, ◌∙◌, some, arith}
use lotus_dashboard.Common.Int.{ℤ, int64_succ}
use lotus_dashboard.Rpc.Client.{ClientSide, make_request}
use lotus_dashboard.Rpc.Client.Ids.{counter}
use lotus_dashboard.Rpc.Link.{Call, request_of}
use lotus_dashboard.Rpc.Link.Sources.{asked, asked-distinct}

module _ {V : Type 0} (cs : ClientSide V) (calls : ℕ → Call V) where
  abbrev pub id_of : ℕ → ℤ
  id_of n = int64_succ (counter n)

  pub asked-id : (n : ℕ) → (asked cs calls n).id ≡ some (id_of n)
  unfolding request_of make_request
  asked-id n = refl

  pub id_of-distinct :
      (bound m n : ℕ) → bound < 2 ^ 64 → m < bound → n < bound → id_of m ≡ id_of n → m ≡ n
  id_of-distinct bound m n small hm hn e =
      asked-distinct cs calls m n (omega arith) (omega arith)
        (asked-id m ∙ ap some e ∙ sym (asked-id n))
