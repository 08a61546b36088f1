-- ===== src/Rpc/Websocket/OutTable.antt =====
-- The two tables of `handleOutChans` as one bag of output channels with their ids.
use mathlib.Core.List.{Perm, perm_append_singleton, map-append}
use mathlib.Core.List.Perm
use mathlib.Core.Path.{subst}
use mathlib.Core.Quot.{sound}
use mathlib.Mathlib.Data.Multiset.Defs.{Multiset, of_list}
use mathlib.Mathlib.Data.Multiset.ZeroCons.{cons}
use lotus_dashboard.Common.{
  ℕ, zero, suc, ◌-◌, ◌≡◌, ◌<◌, ◌≤◌, refl, ap, sym, ◌∙◌, List, [], ◌∷◌, ◌++◌, map, some, Result, ok,
  arith, length, length-map, get_elem?, get_elem?_of_lt, get_elem?-map, map-set, map-take, set,
  take,
}
use lotus_dashboard.Rpc.Message.{Request, ch_value}
use lotus_dashboard.Rpc.Websocket.{Json}
use lotus_dashboard.Rpc.Websocket.OutChans.{
  control, output, OutChans, Chosen, control_closed, registers, output_closed, gives, Turn, done,
  next, sends, close_notice, value_notice, out_step,
}
use lotus_dashboard.Rpc.Websocket.Forwarding.{after_close, out_step_lem}

-- The last entry is the front one of a rearrangement.
last-perm {ℓ} :
    {A : Type ℓ} (xs : List A) (m : ℕ) (x : A)
    → length xs ≡ suc m
    → get_elem? xs m ≡ some x
    → Perm xs (x ∷ take m xs)
last-perm [] m x n e = absurd (ground arith)
last-perm (a ∷ []) zero x n e = subst (λ b. Perm (a ∷ []) (b ∷ [])) (ground arith) (Perm.refl _)
last-perm (a ∷ b ∷ xs) zero x n e = absurd (ground arith)
last-perm (a ∷ []) (suc m) x n e = absurd (ground arith)
last-perm (a ∷ b ∷ xs) (suc m) x n e =
    Perm.trans (Perm.cons a (last-perm (b ∷ xs) m x (omega arith) e)) (Perm.swap x a _)

-- The entry at `j` is replaced by the last, and the last place is dropped.
remove-perm {ℓ} :
    {A : Type ℓ} (xs : List A) (j m : ℕ) (x y : A)
    → length xs ≡ suc m
    → get_elem? xs j ≡ some x
    → get_elem? xs m ≡ some y
    → Perm xs (x ∷ take m (set xs j y))
remove-perm [] j m x y n e f = absurd (ground arith)
remove-perm (a ∷ xs) zero zero x y n e f =
    subst (λ l. Perm (a ∷ l) (x ∷ [])) {x = []} (ground arith)
      (subst (λ b. Perm (a ∷ []) (b ∷ [])) (ground arith) (Perm.refl _))
remove-perm (a ∷ xs) zero (suc m) x y n e f =
    subst (λ b. Perm (a ∷ xs) (b ∷ y ∷ take m xs)) (ground arith)
      (Perm.cons a (last-perm xs m y (omega arith) f))
remove-perm (a ∷ []) (suc j) m x y n e f = absurd (ground arith)
remove-perm (a ∷ b ∷ xs) (suc j) zero x y n e f = absurd (ground arith)
remove-perm (a ∷ b ∷ xs) (suc j) (suc m) x y n e f =
    Perm.trans (Perm.cons a (remove-perm (b ∷ xs) j m x y (omega arith) e f)) (Perm.swap x a _)

module _ {V : Type 0} where
  abbrev pub table_of : List (ℕ × V) → OutChans V
  table_of ps = record { cases = control ∷ map (λ p. output p.1) ps; ids = map (λ p. p.0) ps }

  -- The tables behind the close of entry `j`, the last entry being `p`.
  abbrev close_entry : ℕ → ℕ → ℕ × V → List (ℕ × V) → List (ℕ × V)
  close_entry j m p ps = take m (set ps j p)

  table_of-close_entry :
      (ps : List (ℕ × V)) (j m : ℕ) (p : ℕ × V)
      → after_close (table_of ps) j m (output p.1) p.0 ≡ table_of (close_entry j m p ps)
  table_of-close_entry ps j m p =
      let cases : map (λ q. output q.1) (close_entry j m p ps)
          ≡ take m (set (map (λ q. output q.1) ps) j (output p.1)) =
        map-take (λ q. output q.1) m (set ps j p)
        ∙ ap (take m) (map-set (λ q. output q.1) ps j p) in
      let ids : map (λ q. q.0) (close_entry j m p ps) ≡ take m (set (map (λ q. q.0) ps) j p.0) =
        map-take (λ q. q.0) m (set ps j p) ∙ ap (take m) (map-set (λ q. q.0) ps j p) in
      λ i. record { cases = control ∷ sym cases i; ids = sym ids i }

  -- A `select` chooses the control channel, or the case of an output channel that is there.
  abbrev pub IsCase : List (ℕ × V) → Chosen V → Type 0
  IsCase ps control_closed = Unit
  IsCase ps (registers id ch) = Unit
  IsCase ps (output_closed zero) = ⊥
  IsCase ps (output_closed (suc j)) = j < length ps
  IsCase ps (gives zero val) = ⊥
  IsCase ps (gives (suc j) val) = j < length ps

module _ {V : Type 0} (js : Json V) where
  -- What a turn does to the bag of channels: it takes one in, drops the one that was closed, or
  -- forwards the value of one that is in it, under its id.
  abbrev pub Moves : List (ℕ × V) → Chosen V → Result (Turn V) → Type 0
  Moves ps control_closed r = r ≡ ok done
  Moves ps (registers id ch) r =
      (qs : List (ℕ × V)) × (r ≡ ok (next (table_of qs)))
      × ◌≡◌ {A = Multiset (ℕ × V)} (of_list qs) (cons (id, ch) (of_list ps))
  Moves ps (output_closed zero) r = ⊥
  Moves ps (output_closed (suc j)) r =
      (p : ℕ × V) × (qs : List (ℕ × V)) × (req : Request V) × (get_elem? ps j ≡ some p)
      × (r ≡ ok (sends req (table_of qs)))
      × ◌≡◌ {A = Multiset (ℕ × V)} (of_list ps) (cons p (of_list qs))
  Moves ps (gives zero val) r = ⊥
  Moves ps (gives (suc j) val) r =
      (p : ℕ × V) × (req : Request V) × (get_elem? ps j ≡ some p)
      × (r ≡ ok (sends req (table_of ps)))
      × (req.method ≡ ch_value)
      × (map (λ q. q.value) req.params ≡ some (js.uint64_value p.0) ∷ some val ∷ [])

  closed-Moves :
      (ps : List (ℕ × V)) (j m : ℕ) (p q : ℕ × V)
      → length ps ≡ suc m
      → j ≤ m
      → get_elem? ps j ≡ some p
      → get_elem? ps m ≡ some q
      → Moves ps (output_closed (suc j)) (out_step js (table_of ps) (output_closed (suc j)))
  closed-Moves ps j m p q n h e f =
      let ids = length-map ps (λ x. x.0) in
      let cases = length-map ps (λ x. output x.1) in
      (
        p,
        close_entry j m q ps,
        close_notice js q.0,
        e,
        out_step_lem js (table_of ps) j m (output q.1) q.0 (omega (arith, ids, cases)) (ids ∙ n) h
              (get_elem?-map (λ x. output x.1) ps m q f) (get_elem?-map (λ x. x.0) ps m q f)
            ∙ ap (λ t. ok (sends (close_notice js q.0) t)) (table_of-close_entry ps j m q),
        sound (remove-perm ps j m p q n e f),
      )

  -- `handleOutChans` keeps a bag of output channels, each with its id, whatever the order of its
  -- two tables. Started from tables that list a bag, a turn on a case that is there ends the
  -- goroutine if the control channel is closed, and otherwise leaves tables that list the bag with
  -- the registered channel, without the channel that was closed, or as it was, and then the request
  -- that it sends has the id of the channel that gave the value, and the value.
  pub out_step-Moves :
      (ps : List (ℕ × V)) (ev : Chosen V)
      → IsCase ps ev
      → Moves ps ev (out_step js (table_of ps) ev)
  unfolding out_step
  out_step-Moves ps control_closed c = refl
  out_step-Moves ps (registers id ch) c = (
    ps ++ (id, ch) ∷ [],
    λ i. ok (
        next (record {
          cases = control ∷ sym (map-append (λ p. output p.1) ps ((id, ch) ∷ [])) i;
          ids = sym (map-append (λ p. p.0) ps ((id, ch) ∷ [])) i;
        })),
    sound (perm_append_singleton (id, ch) ps),
  )
  out_step-Moves ps (output_closed zero) c = elim c [ ]
  out_step-Moves ps (output_closed (suc j)) c =
      let (p, e) = get_elem?_of_lt ps j c in
      let (q, f) = get_elem?_of_lt ps (length ps - 1) (omega arith) in
      closed-Moves ps j (length ps - 1) p q (omega arith) (omega arith) e f
  out_step-Moves ps (gives zero val) c = elim c [ ]
  out_step-Moves ps (gives (suc j) val) c =
      let (p, e) = get_elem?_of_lt ps j c in
      let there : get_elem? (map (λ x. x.0) ps) (suc j - 1) ≡ some p.0 =
        ap (get_elem? (map (λ x. x.0) ps)) (omega arith) ∙ get_elem?-map (λ x. x.0) ps j p e in
      (p, value_notice js p.0 val, e, rw there refl, refl, refl)
