-- ===== src/Rpc/Websocket/OutIds.antt =====
-- `handleChanOut` and `handleOutChans` together: the ids of the output channels of a connection.
use mathlib.Core.List.{
  Perm, perm_middle, perm_append_singleton, Mem, mem-cons, mem-cons_of_mem, Nodup, Nodup-cons,
  Nodup-nil, not-mem-nil, append_assoc,
}
use mathlib.Core.List.Perm
use mathlib.Core.Path.{subst}
use mathlib.Core.Logic.{∥∥₁_elim}
use native.Mathlib.Bridge.{le_prop}
use mathlib.Mathlib.Data.Multiset.Defs.{coe-eq-coe}
use lotus_dashboard.Common.{
  ℕ, zero, suc, ◌+◌, ◌%◌, ◌^◌, ◌≡◌, ◌<◌, ◌≤◌, refl, ◌⊎◌, inl, inr, ap, sym, ◌∙◌, List, [], ◌∷◌,
  ◌++◌, map, Result, ok, arith, length, length-map,
}
use lotus_dashboard.Rpc.Message.{Request}
use lotus_dashboard.Rpc.Websocket.{Json, WsConn, handle_chan_out}
use lotus_dashboard.Rpc.Websocket.Loop.{connect}
use lotus_dashboard.Rpc.Websocket.OutChans.{
  OutChans, registers, output_closed, gives, Turn, next, sends, first_cases, out_step,
}
use lotus_dashboard.Rpc.Websocket.OutTable.{table_of, out_step-Moves}

module _ {V : Type 0} (js : Json V) where
  -- A connection after `n` calls of `handleChanOut`: its state, the tables of `handleOutChans`, and
  -- the registrations that wait at `registerCh`, which are received in any order.
  pub data Life : ℕ → WsConn V → OutChans V → List (ℕ × V) → Type 0 where
    opened : Life zero connect first_cases []
    makes :
        {n : ℕ} {c : WsConn V} {s : OutChans V} {ws : List (ℕ × V)} (ch : V)
        → Life n c s ws
        → Life
            (suc n)
            (handle_chan_out js ch c).1
            s
            (ws ++ ((handle_chan_out js ch c).1.chan_ctr, ch) ∷ [])
    registered :
        {n : ℕ} {c : WsConn V} {s t : OutChans V} {ws : List (ℕ × V)} (us vs : List (ℕ × V))
        (id : ℕ) (ch : V)
        → ws ≡ us ++ (id, ch) ∷ vs
        → Life n c s ws
        → out_step js s (registers id ch) ≡ ok (next t)
        → Life n c t (us ++ vs)
    forwarded :
        {n : ℕ} {c : WsConn V} {s t : OutChans V} {ws : List (ℕ × V)} (i : ℕ) (val : V)
        (req : Request V)
        → i < length s.ids
        → Life n c s ws
        → out_step js s (gives (suc i) val) ≡ ok (sends req t)
        → Life n c t ws
    closed :
        {n : ℕ} {c : WsConn V} {s t : OutChans V} {ws : List (ℕ × V)} (i : ℕ) (req : Request V)
        → i < length s.ids
        → Life n c s ws
        → out_step js s (output_closed (suc i)) ≡ ok (sends req t)
        → Life n c t ws

-- Distinct ids, none above `k`.
pub record HasIds {V : Type 0} (k : ℕ) (ps : List (ℕ × V)) : Type 0 where
  pub distinct : Nodup (map (λ p. p.0) ps)
  pub bounded : (i : ℕ) → Mem i (map (λ p. p.0) ps) → i ≤ k

module _ {V : Type 0} where
  HasIds-perm : (k : ℕ) (ps qs : List (ℕ × V)) → Perm ps qs → HasIds k ps → HasIds k qs
  HasIds-perm k ps qs p h = record {
    distinct = Perm.nodup (Perm.map (λ x. x.0) p) h.distinct;
    bounded = λ i m. h.bounded i ((Perm.mem_iff (Perm.map (λ x. x.0) p)).1 m);
  }

  HasIds-tail : (k : ℕ) (p : ℕ × V) (ps : List (ℕ × V)) → HasIds k (p ∷ ps) → HasIds k ps
  HasIds-tail k p ps h = record {
    distinct = (Nodup-cons.0 h.distinct).1;
    bounded = λ i m. h.bounded i (mem-cons_of_mem _ m);
  }

  HasIds-new :
      (k : ℕ) (ch : V) (ps : List (ℕ × V)) → HasIds k ps → HasIds (k + 1) ((k + 1, ch) ∷ ps)
  HasIds-new k ch ps h = record {
    distinct = Nodup-cons.1 ((λ m. absurd (omega (arith, h.bounded (k + 1) m))), h.distinct);
    bounded = λ i m. ∥∥₁_elim (mem-cons.0 m) le_prop (new_or_old i);
  }
    where
      new_or_old : (i : ℕ) → (i ≡ k + 1) ⊎ Mem i (map (λ p. p.0) ps) → i ≤ k + 1
      new_or_old i (inl e) = omega arith
      new_or_old i (inr m) = omega (arith, h.bounded i m)

  -- The entries of the tables and of the registrations that wait have distinct ids.
  record IsSound (n : ℕ) (c : WsConn V) (s : OutChans V) (ws : List (ℕ × V)) : Type 0 where
    ps : List (ℕ × V)
    counter : c.chan_ctr ≡ n
    lists : s ≡ table_of ps
    ids : HasIds n (ps ++ ws)

module _ {V : Type 0} (js : Json V) where
  registered-IsSound :
      (n : ℕ) (c : WsConn V) (s t : OutChans V) (us vs : List (ℕ × V)) (id : ℕ) (ch : V)
      → IsSound n c s (us ++ (id, ch) ∷ vs)
      → out_step js s (registers id ch) ≡ ok (next t)
      → IsSound n c t (us ++ vs)
  registered-IsSound n c s t us vs id ch h e =
      let (qs, r, q) = out_step-Moves js h.ps (registers id ch) tt in
      record {
        ps = qs;
        counter = h.counter;
        lists = next_inj (sym e ∙ ap (λ x. out_step js x (registers id ch)) h.lists ∙ r);
        ids =
            HasIds-perm n _ _
              (Perm.trans (Perm.append_left h.ps (perm_middle us vs)) (
                Perm.trans (perm_middle h.ps (us ++ vs))
                  (Perm.append_right (us ++ vs) (Perm.symm (coe-eq-coe.0 q)))))
              h.ids;
      }
    where
      next_inj : {x y : OutChans V} → ◌≡◌ {A = Result (Turn V)} (ok (next x)) (ok (next y)) → x ≡ y
      next_inj f = cc

  sends_inj :
      {x y : OutChans V} {r q : Request V}
      → ◌≡◌ {A = Result (Turn V)} (ok (sends r x)) (ok (sends q y))
      → x ≡ y
  sends_inj f = cc

  in_table :
      (i : ℕ) (s : OutChans V) (ps : List (ℕ × V))
      → s ≡ table_of ps
      → i < length s.ids
      → i < length ps
  in_table i s ps e h = subst (λ k. i < k) (ap (λ x. length x.ids) e ∙ length-map ps (λ x. x.0)) h

  forwarded-IsSound :
      (n : ℕ) (c : WsConn V) (s t : OutChans V) (ws : List (ℕ × V)) (i : ℕ) (val : V)
      (req : Request V)
      → i < length s.ids
      → IsSound n c s ws
      → out_step js s (gives (suc i) val) ≡ ok (sends req t)
      → IsSound n c t ws
  forwarded-IsSound n c s t ws i val req l h e =
      let (p, r, f, q, named, given) =
        out_step-Moves js h.ps (gives (suc i) val) (in_table i s h.ps h.lists l) in
      record {
        ps = h.ps;
        counter = h.counter;
        lists = sends_inj (sym e ∙ ap (λ x. out_step js x (gives (suc i) val)) h.lists ∙ q);
        ids = h.ids;
      }

  closed-IsSound :
      (n : ℕ) (c : WsConn V) (s t : OutChans V) (ws : List (ℕ × V)) (i : ℕ) (req : Request V)
      → i < length s.ids
      → IsSound n c s ws
      → out_step js s (output_closed (suc i)) ≡ ok (sends req t)
      → IsSound n c t ws
  closed-IsSound n c s t ws i req l h e =
      let (p, qs, r, f, q, m) =
        out_step-Moves js h.ps (output_closed (suc i)) (in_table i s h.ps h.lists l) in
      record {
        ps = qs;
        counter = h.counter;
        lists = sends_inj (sym e ∙ ap (λ x. out_step js x (output_closed (suc i))) h.lists ∙ q);
        ids = HasIds-tail n p _ (HasIds-perm n _ _ (Perm.append_right ws (coe-eq-coe.0 m)) h.ids);
      }

  makes-IsSound :
      (n : ℕ) (c : WsConn V) (s : OutChans V) (ws : List (ℕ × V)) (ch : V)
      → suc n < 2 ^ 64
      → IsSound n c s ws
      → IsSound
          (suc n)
          (handle_chan_out js ch c).1
          s
          (ws ++ ((handle_chan_out js ch c).1.chan_ctr, ch) ∷ [])
  unfolding handle_chan_out
  makes-IsSound n c s ws ch small h =
      let e : (c.chan_ctr + 1) % 2 ^ 64 ≡ n + 1 = omega (arith, h.counter) in
      let e' : n + 1 ≡ suc n = omega arith in
      record {
        ps = h.ps;
        counter = e ∙ e';
        lists = h.lists;
        ids =
            subst (λ k. HasIds k (h.ps ++ (ws ++ ((c.chan_ctr + 1) % 2 ^ 64, ch) ∷ []))) e'
              (subst (λ k. HasIds (n + 1) (h.ps ++ (ws ++ (k, ch) ∷ []))) (sym e)
                (HasIds-perm (n + 1) _ _
                  (Perm.trans (Perm.symm (perm_append_singleton (n + 1, ch) (h.ps ++ ws))) (
                    subst (Perm ((h.ps ++ ws) ++ (n + 1, ch) ∷ [])) (append_assoc h.ps ws _)
                      (Perm.refl _)))
                  (HasIds-new n ch (h.ps ++ ws) h.ids)));
      }

  opened-IsSound : IsSound zero (connect {V = V}) first_cases []
  unfolding connect
  opened-IsSound = record {
    ps = [];
    counter = refl;
    lists = refl;
    ids = record { distinct = Nodup-nil; bounded = λ i m. absurd (not-mem-nil m) };
  }

  Life-IsSound :
      {n : ℕ} {c : WsConn V} {s : OutChans V} {ws : List (ℕ × V)}
      → n < 2 ^ 64
      → Life js n c s ws
      → IsSound n c s ws
  Life-IsSound small opened = opened-IsSound
  Life-IsSound small (makes {n} {c} {s} {ws} ch l) =
      makes-IsSound n c s ws ch small (Life-IsSound (omega arith) l)
  Life-IsSound small (registered {n} {c} {s} {t} us vs id ch e l st) =
      registered-IsSound n c s t us vs id ch (subst (IsSound n c s) e (Life-IsSound small l)) st
  Life-IsSound small (forwarded {n} {c} {s} {t} {ws} i val req h l st) =
      forwarded-IsSound n c s t ws i val req h (Life-IsSound small l) st
  Life-IsSound small (closed {n} {c} {s} {t} {ws} i req h l st) =
      closed-IsSound n c s t ws i req h (Life-IsSound small l) st

  -- On a connection on which fewer than 2^64 output channels have been made, whatever the order in
  -- which channels are made, received by `handleOutChans`, give values and are closed: its tables
  -- list channels side by side with their ids, and no two channels that are in the tables or wait
  -- to be received have the same id.
  pub Life-distinct :
      (n : ℕ) (c : WsConn V) (s : OutChans V) (ws : List (ℕ × V))
      → n < 2 ^ 64
      → Life js n c s ws
      → (ps : List (ℕ × V)) × (s ≡ table_of ps) × Nodup (map (λ p. p.0) (ps ++ ws))
  Life-distinct n c s ws small l = let h = Life-IsSound small l in (h.ps, h.lists, h.ids.distinct)

  -- The counter has counted the channels.
  pub Life-counter :
      (n : ℕ) (c : WsConn V) (s : OutChans V) (ws : List (ℕ × V))
      → n < 2 ^ 64
      → Life js n c s ws
      → c.chan_ctr ≡ n
  Life-counter n c s ws small l = (Life-IsSound small l).counter
