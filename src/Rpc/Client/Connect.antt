-- ===== src/Rpc/Client/Connect.antt =====
-- client.go `NewClient` and `NewMergeClient`: dial, fill each function field, and call it once.
pub mod Calls
use lotus_dashboard.Common.{
  ℕ, zero, suc, String, List, [], ◌∷◌, Bool, Option, none, some, Result, ok, fault, ◌>>=◌,
  index_out_of_range, explicit_panic, fatal_exit, length, if◌then◌else◌, true, false,
}
use lotus_dashboard.Rpc.Util.{GoType}
use lotus_dashboard.Rpc.Client.{Field, RpcFunc, made, refused, Slot, value, error, make_rpc_func}

-- What `handler` is: a pointer to a struct, to something else, or no pointer.
pub data Shape : Type 0 where
  struct_pointer : List Field → Shape
  other_pointer no_pointer : Shape

-- The parameters that are passed: the context, then the address, then a nil tipset, as many as the
-- function has inputs, but one at least and three at most.
pub data Argument : Type 0 where
  background address nil_tipset : Argument

unfoldable pub param_list : ℕ → List Argument
param_list zero = background ∷ []
param_list (suc zero) = background ∷ []
param_list (suc (suc zero)) = background ∷ address ∷ []
param_list (suc (suc (suc n))) = background ∷ address ∷ nil_tipset ∷ []

-- Whether there are as many arguments as inputs, and each is assignable to its input.
abbrev all_assignable : (GoType → Argument → Bool) → List GoType → List Argument → Bool
all_assignable assignable [] [] = true
all_assignable assignable (t ∷ ts) (a ∷ as') =
    if assignable t a then all_assignable assignable ts as' else false
all_assignable assignable ts as' = false

-- `reflect.Value.Call` panics unless the arguments fit. Which types can be assigned is a matter of
-- reflect.
unfoldable pub check_arguments :
    (GoType → Argument → Bool) → List GoType → List Argument → Result (List Argument)
check_arguments assignable ins args =
    if all_assignable assignable ins args then ok args else fault explicit_panic

-- A client, with the last result; or a nil closer with an error.
pub data Client (V : Type 0) : Type 0 where
  connected : Option V → Client V
  failed : String → Client V

module _ {V : Type 0} (namespace : String) (assignable : GoType → Argument → Bool)
    (call : RpcFunc → List Argument → Result (List (Slot V))) where
  -- `totalValue[1].IsNil()`, then `totalValue[0].Interface()`: the result replaces `data`, an error
  -- leaves it.
  unfoldable pub take_result : List (Slot V) → Option V → Result (Option V)
  take_result (value v ∷ error none ∷ r) held = ok (some v)
  take_result (s ∷ error (some e) ∷ r) held = ok held
  take_result (s ∷ []) held = fault index_out_of_range
  take_result [] held = fault index_out_of_range
  take_result (s ∷ t ∷ r) held = fault explicit_panic

  -- The loop over the fields of a struct.
  fields : List Field → Option V → Result (Client V)
  unfolding param_list check_arguments take_result
  fields [] held = ok (connected held)
  fields (f ∷ fs) held = make_rpc_func namespace f >>= elim [
    | refused e ↦ ok (failed e)
    | made fn ↦ do
      args ← check_arguments assignable fn.ftyp.ins (param_list (length fn.ftyp.ins))
      out ← call fn args
      held' ← take_result out held
      fields fs held'
  ]

  -- Whether to go on to the next handler.
  abbrev and_then : Client V → (Option V → Result (Client V)) → Result (Client V)
  and_then (connected held) k = k held
  and_then (failed e) k = ok (failed e)

  -- The loop over `outs`.
  handlers : List Shape → Option V → Result (Client V)
  unfolding fields
  handlers [] held = ok (connected held)
  handlers (no_pointer ∷ hs) held = ok (failed "expected handler to be a pointer")
  handlers (other_pointer ∷ hs) held = ok (failed "handler should be a struct")
  handlers (struct_pointer fs ∷ hs) held = do c ← fields fs held; and_then c (handlers hs)

  -- `NewMergeClient`: a dial that fails ends the process.
  unfoldable pub new_merge_client : Bool → List Shape → Result (Client V)
  unfolding handlers
  new_merge_client dialled outs = if dialled then handlers outs none else fault fatal_exit

  -- `NewClient`
  unfoldable pub new_client : Bool → Shape → Result (Client V)
  unfolding new_merge_client
  new_client dialled handler = new_merge_client dialled (handler ∷ [])
