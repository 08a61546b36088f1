-- ===== src/Rpc/Client/Typing.antt =====
-- The results that a call gives back to `reflect.MakeFunc`, which panics at a zero Value and at a
-- value of another type than the function declares.
use mathlib.Core.Path.{subst}
use lotus_dashboard.Common.{
  ◌≡◌, ◌≢◌, ◌∙◌, refl, sym, ap, inl, inr, ℕ, String, List, [], ◌∷◌, Bool, true, false, Option, none,
  some, Result, ok, arith, get_elem?, Bool-cases, Option-cases, ◌==◌,
}
use lotus_dashboard.Common.Int.{ℤ, int_eq}
use lotus_dashboard.Rpc.Message.{
  Bytes, RespError, IdPointer, nil, own, loop_variable, ClientResponse,
}
use lotus_dashboard.Rpc.Util.{GoType, is_error_type, is_chan_type, process_func_out, process_outs}
use lotus_dashboard.Rpc.Handler.{Decoded, decoded, undecodable}
use lotus_dashboard.Rpc.Client.{
  ClientSide, Field, FieldType, func, other_type, RpcFunc, made, Slot, unset, value, error,
  make_for, make_rpc_func, first_is_context, returns_chan, put, process_response, process_error,
  zero_result, Made, Sent, exiting, answered, dereference, finish_call, finish_answer, finish_value,
  finish_plain, result_value,
}

other_refuses :
    (namespace name : String) (fn : RpcFunc) → make_for namespace name other_type ≢ ok (made fn)
unfolding make_for
other_refuses namespace name fn e = ground arith

decoded_inj : {A : Type 0} {a b : A} → ◌≡◌ {A = Decoded A} (decoded a) (decoded b) → a ≡ b
decoded_inj e = cc

some_inj : {A : Type 0} {a b : A} → some a ≡ some b → a ≡ b
some_inj e = cc

dereference_lem : (loop : ℤ) (p : IdPointer) → p ≢ nil → (n : ℤ) × (dereference loop p ≡ some n)
unfolding dereference
dereference_lem loop nil h = absurd (h refl)
dereference_lem loop (own n) h = (n, refl)
dereference_lem loop loop_variable h = (loop, refl)

-- `HasType` says which values can be assigned to a type.
module _ {V : Type 0} (cs : ClientSide V) (HasType : V → GoType → Type 0) where
  open cs use {zero_value, unmarshal}

  -- A result for an output.
  abbrev pub SlotFits : Slot V → GoType → Type 0
  SlotFits unset t = ⊥
  SlotFits (value v) t = HasType v t
  SlotFits (error e) t = is_error_type t ≡ true

  abbrev pub ResultsFit : List (Slot V) → List GoType → Type 0
  ResultsFit [] [] = Unit
  ResultsFit (s ∷ ss) (t ∷ ts) = SlotFits s t × ResultsFit ss ts
  ResultsFit _ _ = ⊥

  -- A zero value and a decoded value are of their type.
  pub record IsTyped : Type 0 where
    pub zero_typed : (t : GoType) → HasType (zero_value t) t
    pub unmarshal_sound : (t : GoType) (b : Bytes) (v : V) → unmarshal t b ≡ decoded v → HasType v t

  -- A call returns with results for all outputs.
  abbrev pub Gives : List GoType → Result (List (Slot V)) → Type 0
  Gives outs r = (out : List (Slot V)) × (r ≡ ok out) × ResultsFit out outs

  -- The value is of the type of the value result, if there is one.
  abbrev pub ValueFits : RpcFunc → V → Type 0
  ValueFits fn v =
      (i : ℕ) (t : GoType) → fn.val_out ≡ some i → get_elem? fn.ftyp.outs i ≡ some t → HasType v t

  -- What the three ends of a call do.
  record Ends (fn : RpcFunc) : Type 0 where
    fails : Gives fn.ftyp.outs (process_error cs fn)
    responds :
        (e : Option RespError) (v : V)
        → ValueFits fn v
        → Gives fn.ftyp.outs (process_response fn e v)
    plain :
        (resp : ClientResponse) → fn.val_out ≡ none → Gives fn.ftyp.outs (finish_plain cs fn resp)
    typed_value : (i : ℕ) → fn.val_out ≡ some i → (t : GoType) × (get_elem? fn.ftyp.outs i ≡ some t)

  abbrev function_with :
      String → String → List GoType → List GoType → ℕ → Option ℕ → Option ℕ → Bool → RpcFunc
  function_with namespace name ins outs n v e c = record {
    namespace = namespace;
    ftyp = record { ins = ins; outs = outs };
    name = name;
    nout = n;
    val_out = v;
    err_out = e;
    has_ctx = first_is_context ins;
    ret_ch = c;
  }

  module _ (y : IsTyped) (namespace name : String) (ins : List GoType) where
    no_outs : (c : Bool) → Ends (function_with namespace name ins [] 0 none none c)
    unfolding process_error process_response finish_plain zero_result put
    no_outs c = record {
      fails = ([], refl, tt);
      responds = λ e v f. ([], refl, tt);
      plain = λ resp n. ([], refl, tt);
      typed_value = λ i e. absurd (ground arith);
    }

    just_error :
        (t : GoType) (c : Bool)
        → is_error_type t ≡ true
        → Ends (function_with namespace name ins (t ∷ []) 1 none (some 0) c)
    unfolding process_error process_response finish_plain zero_result put
    just_error t c p = record {
      fails = (error none ∷ [], refl, (p, tt));
      responds = λ e v f. (error e ∷ [], refl, (p, tt));
      plain = λ resp n. (error resp.error ∷ [], refl, (p, tt));
      typed_value = λ i e. absurd (ground arith);
    }

    just_value :
        (t : GoType) (c : Bool) → Ends (function_with namespace name ins (t ∷ []) 1 (some 0) none c)
    unfolding process_error process_response zero_result put
    just_value t c = record {
      fails = (value (zero_value t) ∷ [], refl, (y.zero_typed t, tt));
      responds = λ e v f. (value v ∷ [], refl, (f 0 t refl refl, tt));
      plain = λ resp n. absurd (ground arith);
      typed_value = λ i e. (t, ground arith);
    }

    value_and_error :
        (t u : GoType) (c : Bool)
        → is_error_type u ≡ true
        → Ends (function_with namespace name ins (t ∷ u ∷ []) 2 (some 0) (some 1) c)
    unfolding process_error process_response zero_result put
    value_and_error t u c p = record {
      fails = (value (zero_value t) ∷ error none ∷ [], refl, (y.zero_typed t, (p, tt)));
      responds = λ e v f. (value v ∷ error e ∷ [], refl, (f 0 t refl refl, (p, tt)));
      plain = λ resp n. absurd (ground arith);
      typed_value = λ i e. (t, ground arith);
    }

    made_inj : {f g : RpcFunc} → ◌≡◌ {A = Result Made} (ok (made f)) (ok (made g)) → f ≡ g
    made_inj e = cc

    made-Ends :
        (outs : List GoType) (fn : RpcFunc)
        → make_for namespace name (func (record { ins = ins; outs = outs })) ≡ ok (made fn)
        → Ends fn
    unfolding make_for process_func_out process_outs returns_chan
    made-Ends [] fn e = subst Ends (made_inj e) (no_outs false)
    made-Ends (t ∷ []) fn e = elim (Bool-cases (is_error_type t)) [
      | inl p ↦ subst Ends (made_inj (rw p at e)) (just_error t false p)
      | inr p ↦ subst Ends (made_inj (rw p at e)) (just_value t (is_chan_type t))
    ]
    made-Ends (t ∷ u ∷ []) fn e = elim (Bool-cases (is_error_type u)) [
      | inl p ↦ subst Ends (made_inj (rw p at e)) (value_and_error t u (is_chan_type t) p)
      | inr p ↦ absurd (ground arith)
    ]
    made-Ends (t ∷ u ∷ v ∷ w) fn e = absurd (ground arith)

  make_rpc_func-Ends :
      (namespace : String) (f : Field) (fn : RpcFunc)
      → IsTyped
      → make_rpc_func namespace f ≡ ok (made fn)
      → Ends fn
  unfolding make_rpc_func make_for
  make_rpc_func-Ends namespace f fn y e = by_type f.type e
    where
      by_type : (t : FieldType) → make_for namespace f.name t ≡ ok (made fn) → Ends fn
      by_type other_type e = absurd (other_refuses namespace f.name fn e)
      by_type (func t) e = made-Ends y namespace f.name t.ins t.outs fn e

  -- An answer names a request: `*resp.ID` can be read.
  abbrev pub HasId : Sent → Type 0
  HasId exiting = Unit
  HasId (answered resp) = resp.id ≢ nil

  decoded_Gives :
      (fn : RpcFunc) (resp : ClientResponse) (r : Decoded V)
      → Ends fn
      → ((v : V) → r ≡ decoded v → ValueFits fn v)
      → Gives fn.ftyp.outs (finish_value cs fn resp r)
  unfolding finish_value
  decoded_Gives fn resp (decoded v) m f = m.responds resp.error v (f v refl)
  decoded_Gives fn resp (undecodable e) m f = m.fails

  result_typed :
      (t : GoType) (b : Option Bytes) (v : V)
      → IsTyped
      → result_value cs t b ≡ decoded v
      → HasType v t
  unfolding result_value
  result_typed t none v y e = subst (λ x. HasType x t) (decoded_inj e) (y.zero_typed t)
  result_typed t (some b) v y e = y.unmarshal_sound t b v e

  finish_answer-Gives :
      (fn : RpcFunc) (chan : V) (resp : ClientResponse)
      → IsTyped
      → Ends fn
      → ValueFits fn chan
      → Gives fn.ftyp.outs (finish_answer cs fn chan resp)
  unfolding finish_answer
  finish_answer-Gives fn chan resp y m f = elim (Option-cases fn.val_out) [
    | inl n ↦ rw (n, finish_answer) (m.plain resp n)
    | inr (i, v) ↦ elim (Bool-cases fn.ret_ch) [
      | inl c ↦ rw (v, finish_answer) (rw c (m.responds resp.error chan f))
      | inr c ↦
          let (t, o) = m.typed_value i v in
          rw (v, finish_answer)
            (rw c (
              rw o (
                decoded_Gives fn resp (result_value cs t resp.result) m (λ x d j u w z.
                  subst (HasType x)
                    (some_inj (sym o ∙ ap (get_elem? fn.ftyp.outs) (some_inj (sym v ∙ w)) ∙ z))
                    (result_typed t resp.result x y d)))))
    ]
  ]

  -- A function that `makeRpcFunc` makes always returns, once its answer has come or the connection
  -- is gone, if the answer has an id that can be read; and its results are those that its type
  -- declares: as many, each set, an error in the place of the error, and in the place of the value
  -- a value of its type, whatever the answer holds. It is supposed that a zero value, a value that
  -- decodes and the channel of the call are of the type that they stand for.
  pub finish_call-Gives :
      (namespace : String) (f : Field) (fn : RpcFunc) (id loop : ℤ) (chan : V) (s : Sent)
      → IsTyped
      → make_rpc_func namespace f ≡ ok (made fn)
      → ValueFits fn chan
      → HasId s
      → Gives fn.ftyp.outs (finish_call cs fn id loop chan s)
  unfolding finish_call
  finish_call-Gives namespace f fn id loop chan exiting y e c h =
      (make_rpc_func-Ends namespace f fn y e).fails
  finish_call-Gives namespace f fn id loop chan (answered resp) y e c h =
      let m = make_rpc_func-Ends namespace f fn y e in
      let (got, p) = dereference_lem loop resp.id h in
      elim (Bool-cases (got == id)) [
        | inl q ↦ rw p (rw q (finish_answer-Gives fn chan resp y m c))
        | inr q ↦ rw p (rw q m.fails)
      ]
