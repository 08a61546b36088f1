-- ===== src/Rpc/Client/Errors.antt =====
-- How a failed call looks to its caller, and what a cancelled one does to the connection.
use mathlib.Core.Path.{subst}
use lotus_dashboard.Common.{
  ℕ, ◌≡◌, ◌≢◌, sym, ◌∙◌, ◌<◌, refl, inl, inr, String, List, false, Option, none, some, Result, ok,
  fault, arith, length, get_elem?, get_elem?_of_lt, set, replicate, Option-cases, beq_refl,
  Bool-cases, ◌>>=◌, >>=-eq-ok, get_elem?-set, length-set, length-replicate,
}
use lotus_dashboard.Common.Int.{ℤ, int_eq, int_beq_iff}
use lotus_dashboard.Rpc.Message.{RespError, ClientResponse}
use lotus_dashboard.Rpc.Util.{GoType, process_func_out}
use lotus_dashboard.Rpc.Util.Outputs.{InRange, Apart, process_func_out-Describes}
use lotus_dashboard.Rpc.Handler.{Decoded, decoded, undecodable}
use lotus_dashboard.Rpc.Client.{
  ClientSide, Field, func, other_type, RpcFunc, made, Slot, unset, value, error, make_rpc_func,
  make_for, FieldType, returns_chan, put, process_response, process_error, zero_result, Sent,
  exiting, answered, dereference, finish_call, finish_answer, finish_value, finish_plain,
  result_value,
}

-- What the calls rely on in an `rpcFunc`.
pub record IsMade (fn : RpcFunc) : Type 0 where
  pub count : fn.nout ≡ length fn.ftyp.outs
  pub value_in_range : InRange fn.nout fn.val_out
  pub error_in_range : InRange fn.nout fn.err_out
  pub apart : Apart fn.val_out fn.err_out

make_for-IsMade :
    (namespace name : String) (t : FieldType) (fn : RpcFunc)
    → make_for namespace name t ≡ ok (made fn)
    → IsMade fn
unfolding make_for returns_chan
make_for-IsMade namespace name other_type fn e = absurd (ground arith)
make_for-IsMade namespace name (func t) fn e =
    let (out, p, q) = >>=-eq-ok (process_func_out t) _ e in
    let (chan, u, v) = >>=-eq-ok (returns_chan out.val_out t.outs) _ q in
    ground (arith, process_func_out-Describes t out p)

-- `makeRpcFunc` gives a function whose result indices lie in range and differ.
pub make_rpc_func-IsMade :
    (namespace : String) (f : Field) (fn : RpcFunc)
    → make_rpc_func namespace f ≡ ok (made fn)
    → IsMade fn
unfolding make_rpc_func
make_rpc_func-IsMade namespace f fn e = make_for-IsMade namespace f.name f.type fn e

-- What the call's error result holds.
abbrev pub ErrorIs : {V : Type 0} → Option ℕ → Option RespError → Result (List (Slot V)) → Type 0
ErrorIs none e r = Unit
ErrorIs (some i) e (ok out) = get_elem? out i ≡ some (error e)
ErrorIs (some i) e (fault x) = ⊥

put_last :
    {V : Type 0} (i : Option ℕ) (e : Option RespError) (out : List (Slot V))
    → InRange (length out) i
    → ErrorIs i e (put i (error e) out)
unfolding put
put_last none e out r = tt
put_last (some i) e out r = ground (arith, get_elem?-set out i i (error e))

length-put :
    {V : Type 0} (i : Option ℕ) (s : Slot V) (out : List (Slot V))
    → InRange (length out) i
    → (out' : List (Slot V)) × (put i s out ≡ ok out') × (length out' ≡ length out)
unfolding put
length-put none s out r = (out, refl, refl)
length-put (some i) s out r = (set out i s, ground arith, length-set out i s)

-- The end of `processError` and `processResponse`: a value is put, then the error.
put_both :
    {V : Type 0} (fn : RpcFunc) (s : Slot V) (e : Option RespError)
    → IsMade fn
    → ErrorIs fn.err_out e
        (put fn.val_out s (replicate fn.nout unset) >>= λ out. put fn.err_out (error e) out)
put_both {V} fn s e m =
    let empty : Slot V = unset in
    let n = length-replicate fn.nout empty in
    let (out, p, l) =
      length-put fn.val_out s (replicate fn.nout unset)
        (subst (λ k. InRange k fn.val_out) (sym n) m.value_in_range) in
    rw p
      (put_last fn.err_out e out (subst (λ k. InRange k fn.err_out) (sym (l ∙ n)) m.error_in_range))

module _ {V : Type 0} (cs : ClientSide V) where
  zero_result-ok : (fn : RpcFunc) → IsMade fn → (s : Slot V) × (zero_result cs fn ≡ ok s)
  unfolding zero_result
  zero_result-ok fn m = elim (Option-cases fn.val_out) [
    | inl e ↦ (unset, rw e)
    | inr (i, e) ↦
        let (t, p) =
          get_elem?_of_lt fn.ftyp.outs i
            (subst (λ k. i < k) m.count (subst (InRange fn.nout) e m.value_in_range)) in
        (value (cs.zero_value t), rw e (rw p))
  ]

  -- Every error that the client itself finds is lost: the error result of `processError` is nil.
  process_error-ErrorIs : (fn : RpcFunc) → IsMade fn → ErrorIs fn.err_out none (process_error cs fn)
  unfolding process_error
  process_error-ErrorIs fn m = let (s, p) = zero_result-ok fn m in rw p (put_both fn s none m)

  finish_value-ErrorIs :
      (fn : RpcFunc) (resp : ClientResponse) (v : V)
      → IsMade fn
      → ErrorIs fn.err_out resp.error (process_response fn resp.error v)
  unfolding process_response
  finish_value-ErrorIs fn resp v m = put_both fn (value v) resp.error m

  -- What stands against a result: the connection exits, the answer carries another id, or the
  -- result does not decode as the function's value result.
  pub data Fails (fn : RpcFunc) (id loop : ℤ) : Sent → Type 0 where
    exits : Fails fn id loop exiting
    other_id :
        {resp : ClientResponse} (n : ℤ)
        → dereference loop resp.id ≡ some n
        → n ≢ id
        → Fails fn id loop (answered resp)
    garbled :
        {resp : ClientResponse} (i : ℕ) (t : GoType) (e : String)
        → dereference loop resp.id ≡ some id
        → fn.val_out ≡ some i
        → fn.ret_ch ≡ false
        → get_elem? fn.ftyp.outs i ≡ some t
        → result_value cs t resp.result ≡ undecodable e
        → Fails fn id loop (answered resp)

  -- A call of a function that `makeRpcFunc` made which fails on the client's side, by an exiting
  -- connection, an answer with another id or a result that does not decode, has the nil error in
  -- its error result, if it has one.
  pub finish_call-Fails :
      (fn : RpcFunc) (id loop : ℤ) (chan : V) (s : Sent)
      → IsMade fn
      → Fails fn id loop s
      → ErrorIs fn.err_out none (finish_call cs fn id loop chan s)
  unfolding finish_call finish_answer finish_value
  finish_call-Fails fn id loop chan exiting m f = process_error-ErrorIs fn m
  finish_call-Fails fn id loop chan (answered resp) m (other_id n p d) =
      rw p (ground (arith, int_beq_iff n id, process_error-ErrorIs fn m))
  finish_call-Fails fn id loop chan (answered resp) m (garbled i t e p v r o g) =
      rw p
        (rw (beq_refl id) (rw (v, finish_answer) (rw r (rw o (rw g (process_error-ErrorIs fn m))))))

  result-ErrorIs :
      (fn : RpcFunc) (resp : ClientResponse) (r : Decoded V)
      → IsMade fn
      → ((e : String) → r ≢ undecodable e)
      → ErrorIs fn.err_out resp.error (finish_value cs fn resp r)
  unfolding finish_value
  result-ErrorIs fn resp (decoded v) m d = finish_value-ErrorIs fn resp v m
  result-ErrorIs fn resp (undecodable e) m d = absurd (d e refl)

  finish_answer-ErrorIs :
      (fn : RpcFunc) (chan : V) (resp : ClientResponse)
      → IsMade fn
      → ((i : ℕ) (t : GoType) (e : String)
          → fn.val_out ≡ some i
          → get_elem? fn.ftyp.outs i ≡ some t
          → result_value cs t resp.result ≢ undecodable e)
      → ErrorIs fn.err_out resp.error (finish_answer cs fn chan resp)
  unfolding finish_answer finish_plain
  finish_answer-ErrorIs fn chan resp m d = elim (Option-cases fn.val_out) [
    | inl v ↦
        let empty : Slot V = unset in
        rw (v, finish_answer)
          (put_last fn.err_out resp.error (replicate fn.nout empty) (
            subst (λ k. InRange k fn.err_out) (sym (length-replicate fn.nout empty))
              m.error_in_range))
    | inr (i, v) ↦ elim (Bool-cases fn.ret_ch) [
      | inl r ↦ rw (v, finish_answer) (rw r (finish_value-ErrorIs fn resp chan m))
      | inr r ↦
          let (t, o) =
            get_elem?_of_lt fn.ftyp.outs i
              (subst (λ k. i < k) m.count (subst (InRange fn.nout) v m.value_in_range)) in
          rw (v, finish_answer)
            (rw r
              (rw o (result-ErrorIs fn resp (result_value cs t resp.result) m (λ e. d i t e v o))))
    ]
  ]

  -- A call of a function that `makeRpcFunc` made, whose answer carries the call's id and, where
  -- there is a value result, a result that decodes, hands on the error of the answer in its error
  -- result, if it has one.
  pub finish_call-ErrorIs :
      (fn : RpcFunc) (id loop : ℤ) (chan : V) (resp : ClientResponse)
      → IsMade fn
      → dereference loop resp.id ≡ some id
      → ((i : ℕ) (t : GoType) (e : String)
          → fn.val_out ≡ some i
          → get_elem? fn.ftyp.outs i ≡ some t
          → result_value cs t resp.result ≢ undecodable e)
      → ErrorIs fn.err_out resp.error (finish_call cs fn id loop chan (answered resp))
  unfolding finish_call
  finish_call-ErrorIs fn id loop chan resp m p d =
      rw p (rw (beq_refl id) (finish_answer-ErrorIs fn chan resp m d))
