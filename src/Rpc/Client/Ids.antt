-- ===== src/Rpc/Client/Ids.antt =====
-- The ids of the requests of one client, from `atomic.AddInt64(&c.idCtr, 1)`.
use lotus_dashboard.Common.{ℕ, zero, suc, ◌+◌, ◌-◌, ◌%◌, ◌^◌, ◌≡◌, ◌<◌, ◌≤◌, ap, refl, List, arith}
use lotus_dashboard.Common.Int.{ℤ, pos, negsuc, int64_max, int64_succ}
use lotus_dashboard.Rpc.Client.{ClientSide, RpcFunc, make_request}

-- `idCtr` before the call with the given number, of a client whose calls are numbered from 0.
abbrev pub counter : ℕ → ℤ
counter zero = pos 0
counter (suc n) = int64_succ (counter n)

-- The 64 bits of a number, as a natural number.
abbrev bits : ℤ → ℕ
bits (pos n) = n
bits (negsuc n) = 2 ^ 64 - 1 - n

abbrev IsInt64 : ℤ → Type 0
IsInt64 (pos n) = n ≤ int64_max
IsInt64 (negsuc n) = n ≤ int64_max

int64_succ-IsInt64 : (x : ℤ) → IsInt64 x → IsInt64 (int64_succ x)
unfolding int64_succ
int64_succ-IsInt64 (pos n) h = ground arith
int64_succ-IsInt64 (negsuc zero) h = ground arith
int64_succ-IsInt64 (negsuc (suc n)) h = omega arith

bits-int64_succ : (x : ℤ) → IsInt64 x → bits (int64_succ x) ≡ (bits x + 1) % 2 ^ 64
unfolding int64_succ
bits-int64_succ (pos n) h = ground arith
bits-int64_succ (negsuc zero) h = ground arith
bits-int64_succ (negsuc (suc n)) h = omega arith

counter-IsInt64 : (n : ℕ) → IsInt64 (counter n)
counter-IsInt64 zero = omega arith
counter-IsInt64 (suc n) = int64_succ-IsInt64 (counter n) (counter-IsInt64 n)

bits-counter : (n : ℕ) → n < 2 ^ 64 → bits (counter n) ≡ n
bits-counter zero h = refl
bits-counter (suc n) h =
    omega (arith, bits-int64_succ (counter n) (counter-IsInt64 n), bits-counter n (omega arith))

module _ {V : Type 0} (cs : ClientSide V) where
  -- Among the first 2^64 - 1 requests of a client no two have the same id, whatever functions they
  -- call and with which arguments.
  pub make_request-distinct :
      (f g : RpcFunc) (i j s t : ℕ) (xs ys : List V)
      → i + 1 < 2 ^ 64
      → j + 1 < 2 ^ 64
      → (make_request cs f (counter i) s xs).id ≡ (make_request cs g (counter j) t ys).id
      → i ≡ j
  unfolding make_request
  make_request-distinct f g i j s t xs ys hi hj e =
      let same : counter (suc i) ≡ counter (suc j) = ground arith in
      let bi : bits (counter (suc i)) ≡ suc i = bits-counter (suc i) (omega arith) in
      let bj : bits (counter (suc j)) ≡ suc j = bits-counter (suc j) (omega arith) in
      omega (arith, bi, bj, ap bits same)
