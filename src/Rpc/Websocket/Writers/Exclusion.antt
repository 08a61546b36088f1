-- ===== src/Rpc/Websocket/Writers/Exclusion.antt =====
-- Who holds `writeLK`.
use lotus_dashboard.Common.{ℕ, ◌≡◌, ◌≢◌, refl, Bool, true, false, arith}
use lotus_dashboard.Rpc.Websocket.Writers.{
  Writer, offering, writing, finished, Forwarder, selecting, locking, sending, Owner, nobody,
  forwarder, writer, Writers, update, Access, lock, lock_and_offer, register, unlock, give_up, fail,
  gives, closes, lock_out, unlock_out, idle, Schedule, here, then,
}

abbrev pub holds : Writer → Bool
holds offering = true
holds writing = true
holds w = false

-- The owner of the lock is the goroutine that holds it.
pub record IsLocked (o : Owner) (out : Forwarder) (g : ℕ → Writer) : Type 0 where
  pub held : (i : ℕ) → holds (g i) ≡ true → o ≡ writer i
  pub holder : (i : ℕ) → o ≡ writer i → holds (g i) ≡ true
  pub sent : out ≡ sending → o ≡ forwarder
  pub sender : o ≡ forwarder → out ≡ sending

module _ {o : Owner} {out : Forwarder} {g : ℕ → Writer} (h : IsLocked o out g) where
  takes :
      (i : ℕ) (w : Writer) → o ≡ nobody → holds w ≡ true → IsLocked (writer i) out (update g i w)
  takes i w e q = record {
    held = λ j p. ground (arith, h.held j);
    holder = λ j p. ground (arith, h.holder j);
    sent = λ p. ground (arith, h.sent p);
    sender = λ p. ground arith;
  }

  keeps : (i : ℕ) (w : Writer) → holds w ≡ holds (g i) → IsLocked o out (update g i w)
  keeps i w q = record {
    held = λ j p. ground (arith, h.held j);
    holder = λ j p. ground (arith, h.holder j);
    sent = h.sent;
    sender = h.sender;
  }

  frees :
      (i : ℕ) (w : Writer)
      → holds (g i) ≡ true
      → holds w ≡ false
      → IsLocked nobody out (update g i w)
  frees i w p q = record {
    held = λ j r. ground (arith, h.held i, h.held j);
    holder = λ j r. ground arith;
    sent = λ r. ground (arith, h.sent r, h.held i);
    sender = λ r. ground arith;
  }

  -- `handleOutChans` between two points where it does not hold the lock.
  turns : (next : Forwarder) → out ≢ sending → next ≢ sending → IsLocked o next g
  turns next p q = record {
    held = h.held;
    holder = h.holder;
    sent = λ e. absurd (q e);
    sender = λ e. absurd (p (h.sender e));
  }

  sends : o ≡ nobody → IsLocked forwarder sending g
  sends e = record {
    held = λ i p. ground (arith, h.held i);
    holder = λ i p. ground arith;
    sent = λ p. refl;
    sender = λ p. refl;
  }

  sent_it : out ≡ sending → IsLocked nobody selecting g
  sent_it e = record {
    held = λ i p. ground (arith, h.held i, h.sent e);
    holder = λ i p. ground arith;
    sent = λ p. ground arith;
    sender = λ p. ground arith;
  }

pub Access-IsLocked :
    {s t : Writers}
    → Access s t
    → IsLocked s.owner s.out s.goroutine
    → IsLocked t.owner t.out t.goroutine
Access-IsLocked (lock i w o) h = takes h i writing o refl
Access-IsLocked (lock_and_offer i w o) h = takes h i offering o refl
Access-IsLocked (register i w o) h = keeps h i writing (rw w)
Access-IsLocked (unlock i w) h = frees h i finished (rw w) refl
Access-IsLocked (give_up i b w o) h = keeps h i finished (rw w)
Access-IsLocked (fail i w) h = frees h i finished (rw w) refl
Access-IsLocked (gives o n) h = turns h locking (ground arith) (ground arith)
Access-IsLocked (closes k o n) h = turns h locking (ground arith) (ground arith)
Access-IsLocked (lock_out o n) h = sends h n
Access-IsLocked (unlock_out o) h = sent_it h o

pub Schedule-IsLocked :
    {f : ℕ → Bool} {s : Writers} → Schedule (idle f) s → IsLocked s.owner s.out s.goroutine
Schedule-IsLocked here = record {
  held = λ i p. ground arith;
  holder = λ i p. ground arith;
  sent = λ p. ground arith;
  sender = λ p. ground arith;
}
Schedule-IsLocked (then r a) = Access-IsLocked a (Schedule-IsLocked r)

-- In every state that the goroutines of a connection reach, two of them never hold `writeLK`
-- together, and none does while `handleOutChans` is behind it.
one_writer :
    (f : ℕ → Bool) (s : Writers) (i j : ℕ)
    → Schedule (idle f) s
    → holds (s.goroutine i) ≡ true
    → holds (s.goroutine j) ≡ true
    → (i ≡ j) × (s.out ≢ sending)
one_writer f s i j r p q =
    let h = Schedule-IsLocked r in
    (ground (arith, h.held i p, h.held j q), λ e. ground (arith, h.held i p, h.sent e))
