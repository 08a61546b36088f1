-- ===== src/Rpc/Websocket/Forwarding.antt =====
-- What `handleOutChans` keeps of its two tables, and which channel its close notice names.
use lotus_dashboard.Common.{
  ℕ, suc, ◌-◌, ◌≡◌, ◌<◌, ◌≤◌, refl, [], ◌∷◌, map, some, ok, length, length-set, length-take,
  get_elem?-set, get_elem?-take, get_elem?, set, take, nat_beq, if◌then◌else◌, arith,
  get_elem?_of_lt,
}
use lotus_dashboard.Rpc.Message.{Request, ch_close}
use lotus_dashboard.Rpc.Websocket.{Json}
use lotus_dashboard.Rpc.Websocket.OutChans.{
  Case, OutChans, output_closed, sends, close_notice, swap_last, out_step,
}

-- One case more than ids: the control channel's.
abbrev pub IsAligned : {V : Type 0} → OutChans V → Type 0
IsAligned s = length s.cases ≡ suc (length s.ids)

-- The tables of `t` are those of `s` without entry j: the last entry has taken its place.
pub record Removes {V : Type 0} (j : ℕ) (s t : OutChans V) : Type 0 where
  pub aligned : IsAligned t
  pub shorter : suc (length t.ids) ≡ length s.ids
  pub ids_moved :
      (i : ℕ)
      → i < length t.ids
      → get_elem? t.ids i ≡ get_elem? s.ids (if nat_beq j i then length t.ids else i)
  pub cases_moved :
      (i : ℕ)
      → i < length t.ids
      → get_elem? t.cases (suc i)
        ≡ get_elem? s.cases (suc (if nat_beq j i then length t.ids else i))

sub_one : (n : ℕ) → suc n - 1 ≡ n
sub_one n = omega arith

module _ {V : Type 0} (s : OutChans V) (j m : ℕ) (c : Case V) (id : ℕ) where
  -- The tables behind a close of output case `suc j`, the last case being `c` with `id`.
  abbrev pub after_close : OutChans V
  after_close = record {
    cases = take (suc m) (set s.cases (suc j) c);
    ids = take m (set s.ids j id);
  }

  module _ (a : IsAligned s) (n : length s.ids ≡ suc m) (h : j ≤ m)
      (ec : get_elem? s.cases (suc m) ≡ some c) (ei : get_elem? s.ids m ≡ some id) where
    length-after_close : length after_close.ids ≡ m
    length-after_close = length-take m (set s.ids j id) (omega (arith, length-set s.ids j id))

    after_close-Removes : Removes j s after_close
    after_close-Removes = record {
      aligned = omega (
        arith,
        length-after_close,
        length-set s.cases (suc j) c,
        length-take (suc m) (set s.cases (suc j) c),
      );
      shorter = omega (arith, length-after_close);
      ids_moved = λ i l. ground (
        arith,
        length-after_close,
        get_elem?-take m (set s.ids j id) i,
        get_elem?-set s.ids j i id,
      );
      cases_moved = λ i l. ground (
        arith,
        length-after_close,
        get_elem?-take (suc m) (set s.cases (suc j) c) (suc i),
        get_elem?-set s.cases (suc j) (suc i) c,
      );
    }

module _ {V : Type 0} (js : Json V) where
  pub out_step_lem :
      (s : OutChans V) (j m : ℕ) (c : Case V) (id : ℕ)
      → IsAligned s
      → length s.ids ≡ suc m
      → j ≤ m
      → get_elem? s.cases (suc m) ≡ some c
      → get_elem? s.ids m ≡ some id
      → out_step js s (output_closed (suc j))
        ≡ ok (sends (close_notice js id) (after_close s j m c id))
  unfolding out_step swap_last
  out_step_lem s j m c id a n h ec ei =
      rw (n, sub_one m, sub_one j) (rw (ec, ei) (ground (arith, get_elem?-set s.ids j j id)))

  -- When output channel j of aligned tables closes, `handleOutChans` goes on with tables that have
  -- lost its entry and no other, ids and channels still side by side. But its notice names the id
  -- that was last in the table, whichever channel was closed.
  pub out_step-output_closed :
      (s : OutChans V) (j m : ℕ)
      → IsAligned s
      → length s.ids ≡ suc m
      → j ≤ m
      → (t : OutChans V) × (r : Request V) × (last : ℕ) × (out_step js s (output_closed (suc j))
          ≡ ok (sends r t))
        × Removes j s t
        × (get_elem? s.ids m ≡ some last)
        × (r.method ≡ ch_close)
        × (map (λ p. p.value) r.params ≡ some (js.uint64_value last) ∷ [])
  unfolding out_step swap_last
  out_step-output_closed s j m a n h =
      let (c, ec) = get_elem?_of_lt s.cases (suc m) (omega arith) in
      let (id, ei) = get_elem?_of_lt s.ids m (omega arith) in
      (
        after_close s j m c id,
        close_notice js id,
        id,
        out_step_lem s j m c id a n h ec ei,
        after_close-Removes s j m c id a n h ec ei,
        ei,
        refl,
        refl,
      )
