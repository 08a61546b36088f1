-- ===== src/Common/Faults.antt =====
-- What stops a goroutine: Go's run-time panics, fatal errors, and a wait that never ends, as values.
use mathlib.Core.Path.{◌≡◌, refl}
use mathlib.Core.Logic.{◌⊎◌, inl, inr}
use mathlib.Core.Option.{Option, none, some}
use native.Mathlib.Omega.{arith}
use mathlib.Core.Bool.{Bool, true, false}

pub data Fault : Type 0 where
  nil_dereference index_out_of_range send_on_closed close_of_closed : Fault
  unlock_of_unlocked nil_call type_assertion fatal_exit explicit_panic : Fault
  blocked : Fault

-- A run of a piece of code: it returns a value, or it stops with a fault.
pub data Result (A : Type 0) : Type 0 where
  ok : A → Result A
  fault : Fault → Result A

-- `*p` for a pointer that may be nil, and `s[i]` for an index that may be out of range.
abbrev pub or_fault : {A : Type 0} → Fault → Option A → Result A
or_fault e none = fault e
or_fault e (some a) = ok a

-- A statement and what follows it, which a fault leaves out.
infixl 5 ◌>>=◌
abbrev pub ◌>>=◌ : {A B : Type 0} → Result A → (A → Result B) → Result B
(fault stop) >>= next = fault stop
(ok value) >>= next = next value

abbrev pub is_ok : {A : Type 0} → Result A → Bool
is_ok (ok a) = true
is_ok (fault e) = false

pub Result-cases :
    {A : Type 0} (r : Result A) → ((a : A) × (r ≡ ok a)) ⊎ ((e : Fault) × (r ≡ fault e))
Result-cases (ok a) = inl (a, refl)
Result-cases (fault e) = inr (e, refl)

-- The same for a statement without a value.
infixl 5 ◌>>◌
abbrev pub ◌>>◌ : {C : Type 0} → Result (Unit {0}) → Result C → Result C
first >> second = first >>= λ u. second

-- A chain that returns, as a step of a proof: what follows is shown for any value of the first
-- statement.
pub >>=-step {ℓ} :
    {A B : Type 0} {P : Type ℓ} (first : Result A) (next : A → Result B) {z : B}
    → first >>= next ≡ ok z
    → ((value : A) → first ≡ ok value → next value ≡ ok z → P)
    → P
>>=-step (fault stop) next returns proof = absurd (ground arith)
>>=-step (ok value) next returns proof = proof value refl returns

pub >>=-eq-ok :
    {A B : Type 0} (first : Result A) (next : A → Result B) {z : B}
    → first >>= next ≡ ok z
    → (value : A) × (first ≡ ok value) × (next value ≡ ok z)
>>=-eq-ok first next returns = >>=-step first next returns λ value p q. (value, p, q)
