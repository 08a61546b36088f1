-- ===== src/Rpc/Client/Connect/Calls.antt =====
-- What `NewMergeClient` hands back: the loop over the fields, each of which is called once.
use mathlib.Core.List.{flatten, append-nil}
use lotus_dashboard.Common.{
  ◌≡◌, inl, inr, refl, ap, sym, Result-cases, ◌∙◌, String, List, [], ◌∷◌, ◌++◌, map, Bool, true,
  false, Option, none, some, Result, ok, ◌>>=◌, length,
}
use lotus_dashboard.Rpc.Message.{RespError}
use lotus_dashboard.Rpc.Util.{GoType}
use lotus_dashboard.Rpc.Client.{Field, RpcFunc, made, refused, Slot, value, error, make_rpc_func}
use lotus_dashboard.Rpc.Client.Connect.{
  struct_pointer, Argument, param_list, check_arguments, connected, take_result, fields, handlers,
  and_then, new_merge_client, new_client,
}

-- The result that is kept: the last one that came without an error.
abbrev pub last_good : {V : Type 0} → List (V × Option RespError) → Option V → Option V
last_good [] held = held
last_good ((v, none) ∷ rs) held = last_good rs (some v)
last_good ((v, some e) ∷ rs) held = last_good rs held

module _ {V : Type 0} (namespace : String) (assignable : GoType → Argument → Bool)
    (call : RpcFunc → List Argument → Result (List (Slot V))) where
  -- A field that becomes a function which takes the arguments, and what its call returns.
  pub record Answers (f : Field) (r : V × Option RespError) : Type 0 where
    pub fn : RpcFunc
    pub becomes : make_rpc_func namespace f ≡ ok (made fn)
    pub fits :
        check_arguments assignable fn.ftyp.ins (param_list (length fn.ftyp.ins))
        ≡ ok (param_list (length fn.ftyp.ins))
    pub returns : call fn (param_list (length fn.ftyp.ins)) ≡ ok (value r.0 ∷ error r.1 ∷ [])

  abbrev pub AllAnswer : List Field → List (V × Option RespError) → Type 0
  AllAnswer [] [] = Unit
  AllAnswer (f ∷ fs) (r ∷ rs) = Answers f r × AllAnswer fs rs
  AllAnswer _ _ = ⊥

  fields-cons :
      (f : Field) (fs : List Field) (v : V) (e : Option RespError) (held : Option V)
      → Answers f (v, e)
      → fields namespace assignable call (f ∷ fs) held
        ≡ fields namespace assignable call fs (last_good ((v, e) ∷ []) held)
  unfolding fields take_result
  fields-cons f fs v none held a = rw (a.becomes, fields) (rw (a.fits, a.returns) refl)
  fields-cons f fs v (some e) held a = rw (a.becomes, fields) (rw (a.fits, a.returns) refl)

  last_good-cons :
      (v : V) (e : Option RespError) (rs : List (V × Option RespError)) (held : Option V)
      → last_good rs (last_good ((v, e) ∷ []) held) ≡ last_good ((v, e) ∷ rs) held
  last_good-cons v none rs held = refl
  last_good-cons v (some e) rs held = refl

  fields-AllAnswer :
      (fs : List Field) (rs : List (V × Option RespError)) (held : Option V)
      → AllAnswer fs rs
      → fields namespace assignable call fs held ≡ ok (connected (last_good rs held))
  unfolding fields
  fields-AllAnswer [] [] held a = refl
  fields-AllAnswer [] (r ∷ rs) held a = elim a [ ]
  fields-AllAnswer (f ∷ fs) [] held a = elim a [ ]
  fields-AllAnswer (f ∷ fs) ((v, e) ∷ rs) held (a, bs) =
      fields-cons f fs v e held a
      ∙ fields-AllAnswer fs rs (last_good ((v, e) ∷ []) held) bs
      ∙ ap (λ o. ok (connected o)) (last_good-cons v e rs held)

  -- A struct's fields in two parts.
  fields-append :
      (fs gs : List Field) (held : Option V)
      → fields namespace assignable call (fs ++ gs) held ≡ (
          fields namespace assignable call fs held >>= λ c.
          and_then namespace assignable call c (fields namespace assignable call gs))
  unfolding fields
  fields-append [] gs held = refl
  fields-append (f ∷ fs) gs held = elim (Result-cases (make_rpc_func namespace f)) [
    | inr (x, p) ↦ rw (p, fields) refl
    | inl (refused x, p) ↦ rw (p, fields) refl
    | inl (made fn, p) ↦
        elim (Result-cases
          (check_arguments assignable fn.ftyp.ins (param_list (length fn.ftyp.ins)))) [
            | inr (x, q) ↦ rw (p, fields, q) refl
            | inl (args, q) ↦ elim (Result-cases (call fn args)) [
              | inr (x, r) ↦ rw (p, fields, q, r) refl
              | inl (out, r) ↦
                  elim (Result-cases (take_result namespace assignable call out held)) [
                    | inr (x, t) ↦ rw (p, fields, q, r, t) refl
                    | inl (kept, t) ↦ rw (p, fields, q, r, t) (fields-append fs gs kept)
                  ]
            ]
          ]
  ]

  handlers-flatten :
      (fss : List (List Field)) (held : Option V)
      → handlers namespace assignable call (map struct_pointer fss) held
        ≡ fields namespace assignable call (flatten fss) held
  unfolding handlers fields flatten
  handlers-flatten [] held = refl
  handlers-flatten (fs ∷ fss) held =
      ap
        (λ next. fields namespace assignable call fs held >>= λ c.
          and_then namespace assignable call c next)
        (λ i h. handlers-flatten fss h i)
      ∙ sym (fields-append fs (flatten fss) held)

  -- A client for several structs is the client for one struct with the fields of all of them: the
  -- same fields are called, in the same order, and the same result, error or panic comes back.
  new_merge_client-flatten :
      (dialled : Bool) (fss : List (List Field))
      → new_merge_client namespace assignable call dialled (map struct_pointer fss)
        ≡ new_client namespace assignable call dialled (struct_pointer (flatten fss))
  unfolding new_merge_client new_client flatten
  new_merge_client-flatten false fss = refl
  new_merge_client-flatten true fss =
      handlers-flatten fss none
      ∙ sym (
          handlers-flatten (flatten fss ∷ []) none
          ∙ ap (λ l. fields namespace assignable call l none) (append-nil (flatten fss)))

  -- If the dial succeeds, and every field of the structs becomes a function that takes the
  -- arguments and whose call returns a value and an error, which may be nil, then the client is
  -- made, with the value of the last call whose error is nil, or with nothing if there is none.
  pub new_merge_client-last_good :
      (fss : List (List Field)) (rs : List (V × Option RespError))
      → AllAnswer (flatten fss) rs
      → new_merge_client namespace assignable call true (map struct_pointer fss)
        ≡ ok (connected (last_good rs none))
  unfolding new_merge_client
  new_merge_client-last_good fss rs a =
      handlers-flatten fss none ∙ fields-AllAnswer (flatten fss) rs none a
