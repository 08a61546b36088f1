-- ===== src/Rpc/Websocket/Writers/Deadlock.antt =====
-- When the goroutines of a connection cannot go on.
use mathlib.Core.Path.{subst}
use lotus_dashboard.Common.{ℕ, ◌≡◌, ◌≢◌, ◌⊎◌, inl, inr, refl, ap, Bool, true, false, arith}
use lotus_dashboard.Rpc.Websocket.Writers.{
  Writer, waiting, offering, writing, finished, Forwarder, selecting, locking, sending, Owner,
  nobody, forwarder, writer, Writers, Access, lock, lock_and_offer, register, unlock, give_up, fail,
  gives, closes, lock_out, unlock_out, idle, Schedule, here, then,
}
use lotus_dashboard.Rpc.Websocket.Writers.Exclusion.{holds, IsLocked, Schedule-IsLocked}

-- A goroutine offers a channel to `handleOutChans`, which waits for the lock that it holds.
pub record IsStuck (s : Writers) : Type 0 where
  pub at : ℕ
  pub offers : s.goroutine at ≡ offering
  pub blocked : s.out ≡ locking

stuck_writing :
    {s : Writers}
    → IsLocked s.owner s.out s.goroutine
    → (k : IsStuck s) (i : ℕ) → s.goroutine i ≢ writing
stuck_writing {s} h k i w =
    let mine : s.owner ≡ writer i = h.held i (rw w) in
    let its : s.owner ≡ writer k.at = h.held k.at (rw k.offers) in
    let same : i ≡ k.at = ground arith in
    let both : s.goroutine k.at ≡ writing = subst (λ j. s.goroutine j ≡ writing) same w in
    ground (arith, k.offers)

stuck_lem : {s t : Writers} → IsLocked s.owner s.out s.goroutine → IsStuck s → ¬ Access s t
stuck_lem h k (lock i w o) = ground (arith, h.held k.at, k.offers)
stuck_lem h k (lock_and_offer i w o) = ground (arith, h.held k.at, k.offers)
stuck_lem h k (register i w o) = ground (arith, k.blocked)
stuck_lem h k (unlock i w) = stuck_writing h k i w
stuck_lem h k (give_up i b w o) = ground (arith, h.held k.at, k.offers)
stuck_lem h k (fail i w) = stuck_writing h k i w
stuck_lem h k (gives o n) = ground (arith, k.blocked)
stuck_lem h k (closes n o e) = ground (arith, k.blocked)
stuck_lem h k (lock_out o n) = ground (arith, h.held k.at, k.offers)
stuck_lem h k (unlock_out o) = ground (arith, k.blocked)

-- The accesses that lead to it: a first channel is answered and registered, it gives a value,
-- and a second one is answered before `handleOutChans` has the lock for that value.
reach-IsStuck :
    (f : ℕ → Bool) (i j : ℕ)
    → f i ≡ true
    → f j ≡ true
    → i ≢ j
    → (s : Writers) × Schedule (idle f) s × IsStuck s
reach-IsStuck f i j p q n = (
  _,
  then
      (then
        (then
          (then (then here (lock_and_offer i (ap waiting p) refl)) (register i (ground arith) refl))
          (unlock i (ground arith)))
        (gives refl (omega arith)))
      (lock_and_offer j (ground arith) refl),
  record { at = j; offers = ground arith; blocked = refl },
)

-- If two calls of a connection are answered by output channels, its goroutines can come to a state
-- in which none of them ever goes on: one holds `writeLK` and offers its channel to
-- `handleOutChans`, which waits for `writeLK` with a message of the other channel.
pub deadlock :
    (f : ℕ → Bool) (i j : ℕ)
    → f i ≡ true
    → f j ≡ true
    → i ≢ j
    → (s : Writers) × Schedule (idle f) s × IsStuck s × ((t : Writers) → ¬ Access s t)
deadlock f i j p q n =
    let (s, r, k) = reach-IsStuck f i j p q n in (s, r, k, λ t. stuck_lem (Schedule-IsLocked r) k)

pub owner_cases : (o : Owner) → (o ≡ nobody) ⊎ (o ≡ forwarder) ⊎ ((i : ℕ) × (o ≡ writer i))
owner_cases nobody = inl refl
owner_cases forwarder = inr (inl refl)
owner_cases (writer i) = inr (inr (i, refl))

writer_cases : (w : Writer) → w ≢ finished → (holds w ≡ true) ⊎ ((b : Bool) × (w ≡ waiting b))
writer_cases (waiting b) n = inr (b, refl)
writer_cases offering n = inl refl
writer_cases writing n = inl refl
writer_cases finished n = absurd (n refl)

pub holds_cases : (w : Writer) → holds w ≡ true → (w ≡ offering) ⊎ (w ≡ writing)
holds_cases (waiting b) n = absurd (ground arith)
holds_cases offering n = inl refl
holds_cases writing n = inr refl
holds_cases finished n = absurd (ground arith)

out_cases : (o : Forwarder) → (o ≡ selecting) ⊎ (o ≡ locking) ⊎ (o ≡ sending)
out_cases selecting = inl refl
out_cases locking = inr (inl refl)
out_cases sending = inr (inr refl)

-- In every state that the goroutines of a connection reach, while one of them has not finished some
-- goroutine can go on, unless one that holds `writeLK` offers a channel to `handleOutChans` and
-- `handleOutChans` waits for `writeLK`.
pub progress :
    (f : ℕ → Bool) (s : Writers) (i : ℕ)
    → Schedule (idle f) s
    → s.goroutine i ≢ finished
    → IsStuck s ⊎ ((t : Writers) × Access s t)
progress f s i r n =
    let h = Schedule-IsLocked r in
    elim (owner_cases s.owner) [
      | inl free ↦ elim (writer_cases (s.goroutine i) n) [
        | inl held ↦ absurd (ground (arith, h.held i held))
        | inr (true, w) ↦ inr (_, lock_and_offer i w free)
        | inr (false, w) ↦ inr (_, lock i w free)
      ]
      | inr (inl out) ↦ inr (_, unlock_out (h.sender out))
      | inr (inr (j, own)) ↦ elim (holds_cases (s.goroutine j) (h.holder j own)) [
        | inr w ↦ inr (_, unlock j w)
        | inl w ↦ elim (out_cases s.out) [
          | inl sel ↦ inr (_, register j w sel)
          | inr (inl lck) ↦ inl (record { at = j; offers = w; blocked = lck })
          | inr (inr snd) ↦ absurd (ground (arith, h.sent snd))
        ]
      ]
    ]
