-- ===== src/Rpc/Util/Outputs.antt =====
-- What `processFuncOut` says of a function type.
use lotus_dashboard.Common.{
  ℕ, ◌≡◌, ◌≢◌, ◌≤◌, ◌<◌, ◌⊎◌, inl, inr, refl, Bool-cases, List, [], ◌∷◌, true, Option, none, some,
  Result, ok, fault, arith, length, get_elem?, explicit_panic,
}
use mathlib.Core.Option
use mathlib.Core.Path.{subst}
use lotus_dashboard.Rpc.Util.{
  GoType, FuncType, FuncOut, is_error_type, process_outs, process_func_out,
}

-- An index that is set lies in range.
abbrev pub InRange : ℕ → Option ℕ → Type 0
InRange n none = Unit
InRange n (some i) = i < n

-- The output at the index is an error.
abbrev pub HoldsError : List GoType → Option ℕ → Type 0
HoldsError outs none = Unit
HoldsError outs (some i) = Option.map is_error_type (get_elem? outs i) ≡ some true

-- Two indices that are set differ.
abbrev pub Apart : Option ℕ → Option ℕ → Type 0
Apart (some i) (some j) = i ≢ j
Apart _ _ = Unit

-- What `callResult[i]` and `out[i]` rely on.
pub record Describes (outs : List GoType) (r : FuncOut) : Type 0 where
  pub count : r.n ≡ length outs
  pub few : r.n ≤ 2
  pub value_in_range : InRange r.n r.val_out
  pub error_in_range : InRange r.n r.err_out
  pub error_is_error : HoldsError outs r.err_out
  pub apart : Apart r.val_out r.err_out

-- The signatures that the package takes: at most one result, or two of which the second is an error.
abbrev pub IsSupported : List GoType → Type 0
IsSupported outs = (length outs ≤ 1) ⊎ (length outs ≡ 2) × HoldsError outs (some 1)

-- How `processFuncOut` ends.
abbrev pub Decides : List GoType → Result FuncOut → Type 0
Decides outs r =
    ((v : FuncOut) × (r ≡ ok v) × Describes outs v × IsSupported outs)
    ⊎ ((r ≡ fault explicit_panic) × (¬ IsSupported outs))

process_outs-Decides : (outs : List GoType) → Decides outs (process_outs outs)
unfolding process_outs
process_outs-Decides [] =
    inl (record { val_out = none; err_out = none; n = 0 }, refl, ground arith, ground arith)
process_outs-Decides (t ∷ []) = elim (Bool-cases (is_error_type t)) [
  | inl e ↦
      inl (record { val_out = none; err_out = some 0; n = 1 }, rw e, ground arith, ground arith)
  | inr e ↦
      inl (record { val_out = some 0; err_out = none; n = 1 }, rw e, ground arith, ground arith)
]
process_outs-Decides (t ∷ u ∷ []) = elim (Bool-cases (is_error_type u)) [
  | inl e ↦
      inl (record { val_out = some 0; err_out = some 1; n = 2 }, rw e, ground arith, ground arith)
  | inr e ↦ inr (rw e, λ s. ground arith)
]
process_outs-Decides (t ∷ u ∷ v ∷ w) = inr (refl, λ s. ground arith)

-- `processFuncOut` accepts exactly the signatures with at most one result, or with two of which
-- the second is an error, and panics at every other. Where it returns, the count is the number of
-- outputs, both indices lie in range and differ, and the output at the error index is an error.
process_func_out-Decides : (f : FuncType) → Decides f.outs (process_func_out f)
unfolding process_func_out
process_func_out-Decides f = process_outs-Decides f.outs

pub process_func_out-Describes :
    (f : FuncType) (r : FuncOut) → process_func_out f ≡ ok r → Describes f.outs r
process_func_out-Describes f r h = elim (process_func_out-Decides f) [
  | inl (v, e, d, s) ↦ subst (Describes f.outs) (ground arith) d
  | inr (e, s) ↦ absurd (ground arith)
]
