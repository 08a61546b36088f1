-- ===== src/Rpc/Websocket/Writers/Ending.antt =====
-- The end of a connection while its goroutines run: `handleWsConn` closes `registerCh`, which
-- `handleChanOut` sends to.
use mathlib.Core.Path.{subst}
use native.Mathlib.Decide.{ℕ_discrete}
use lotus_dashboard.Common.{
  ℕ, ◌≡◌, ◌≢◌, ◌⊎◌, ◌↔◌, inl, inr, refl, sym, ap, Bool, true, false, arith,
}
use lotus_dashboard.Rpc.Websocket.Writers.{
  Writer, waiting, offering, writing, finished, selecting, nobody, Writers, update, Access, lock,
  lock_and_offer, register, unlock, give_up, fail, gives, closes, lock_out, unlock_out, idle,
  Schedule,
}
use lotus_dashboard.Rpc.Websocket.Writers.Exclusion.{IsLocked, Access-IsLocked, Schedule-IsLocked}
use lotus_dashboard.Rpc.Websocket.Writers.Deadlock.{owner_cases, holds_cases}

-- The connection is open; or it has ended, and `handleOutChans` runs or has returned; or a panic
-- has ended the process.
pub data Process : Type 0 where
  open_conn : Writers → Process
  ended : Bool → Writers → Process
  crashed : Process

-- What a goroutine can still do behind the close of `registerCh`: nothing is received from it, and
-- `handleOutChans` forwards until it has returned.
abbrev pub can_still : {s t : Writers} → Bool → Access s t → Bool
can_still out (register i w o) = false
can_still out (gives o n) = out
can_still out (closes k o n) = out
can_still out a = true

pub data Step : Process → Process → Type 0 where
  runs : {s t : Writers} → Access s t → Step (open_conn s) (open_conn t)
  -- the deferred `close(c.registerCh)`
  ends : {s : Writers} → Step (open_conn s) (ended true s)
  goes_on :
      {s t : Writers} {out : Bool} (a : Access s t)
      → can_still out a ≡ true
      → Step (ended out s) (ended out t)
  -- `handleOutChans` receives the close
  returns : {s : Writers} → s.out ≡ selecting → Step (ended true s) (ended false s)
  -- `c.registerCh <-` on the closed channel
  panics :
      {s : Writers} {out : Bool} (i : ℕ) → s.goroutine i ≡ offering → Step (ended out s) crashed

pub data Leads (p : Process) : Process → Type 0 where
  start : Leads p p
  next : {q r : Process} → Leads p q → Step q r → Leads p r

-- A goroutine that is about to offer a channel is one whose answer is a channel.
abbrev IsAnswer : Bool → Writer → Type 0
IsAnswer b (waiting c) = c ≡ b
IsAnswer b offering = b ≡ true
IsAnswer b w = Unit

abbrev Answers : (ℕ → Bool) → Writers → Type 0
Answers f s = (i : ℕ) → IsAnswer (f i) (s.goroutine i)

update_same : (g : ℕ → Writer) (i : ℕ) (w : Writer) → update g i w i ≡ w
update_same g i w = ground arith

update_other : (g : ℕ → Writer) (i j : ℕ) (w : Writer) → i ≢ j → update g i w j ≡ g j
update_other g i j w n = ground arith

Answers-update :
    (f : ℕ → Bool) (g : ℕ → Writer) (i : ℕ) (w : Writer)
    → ((j : ℕ) → IsAnswer (f j) (g j))
    → IsAnswer (f i) w
    → (j : ℕ) → IsAnswer (f j) (update g i w j)
Answers-update f g i w h a j = elim (ℕ_discrete i j) [
  | yes e ↦
      subst (λ k. IsAnswer (f k) (update g i w k)) e
        (subst (IsAnswer (f i)) (sym (update_same g i w)) a)
  | no n ↦ subst (IsAnswer (f j)) (sym (update_other g i j w n)) (h j)
]

Access-Answers : (f : ℕ → Bool) {s t : Writers} → Access s t → Answers f s → Answers f t
Access-Answers f (lock i w o) h = Answers-update f _ i writing h tt
Access-Answers f {s} (lock_and_offer i w o) h =
    Answers-update f s.goroutine i offering h (sym (subst (IsAnswer (f i)) w (h i)))
Access-Answers f (register i w o) h = Answers-update f _ i writing h tt
Access-Answers f (unlock i w) h = Answers-update f _ i finished h tt
Access-Answers f (give_up i b w o) h = Answers-update f _ i finished h tt
Access-Answers f (fail i w) h = Answers-update f _ i finished h tt
Access-Answers f (gives o n) h = h
Access-Answers f (closes k o n) h = h
Access-Answers f (lock_out o n) h = h
Access-Answers f (unlock_out o) h = h

-- What holds of the goroutines in a state of the process; a crash has its goroutine.
IsSound : (ℕ → Bool) → Process → Type 0
IsSound f (open_conn s) = IsLocked s.owner s.out s.goroutine × Answers f s
IsSound f (ended out s) = IsLocked s.owner s.out s.goroutine × Answers f s
IsSound f crashed = (i : ℕ) × (f i ≡ true)

Step-IsSound : (f : ℕ → Bool) {p q : Process} → Step p q → IsSound f p → IsSound f q
unfolding IsSound
Step-IsSound f (runs a) (l, h) = (Access-IsLocked a l, Access-Answers f a h)
Step-IsSound f ends h = h
Step-IsSound f (goes_on a c) (l, h) = (Access-IsLocked a l, Access-Answers f a h)
Step-IsSound f (returns o) h = h
Step-IsSound f (panics i w) (l, h) = (i, subst (IsAnswer (f i)) w (h i))

Leads-IsSound : (f : ℕ → Bool) {p : Process} → Leads (open_conn (idle f)) p → IsSound f p
unfolding IsSound
Leads-IsSound f start = (Schedule-IsLocked {f = f} Schedule.here, λ i. refl)
Leads-IsSound f (next l s) = Step-IsSound f s (Leads-IsSound f l)

-- The lock is free: the goroutine takes it, and offers.
offers_and_panics :
    {p : Process} {out : Bool} {s : Writers} (i : ℕ)
    → Leads p (ended out s)
    → s.goroutine i ≡ waiting true
    → s.owner ≡ nobody
    → Leads p crashed
offers_and_panics {s = s} i l w o =
    next (next l (goes_on (lock_and_offer i w o) refl))
      (panics i (update_same s.goroutine i offering))

-- When a connection ends, one of its goroutines can come to send on the closed `registerCh`, which
-- panics and ends the process, exactly if some call of the connection is answered by an output
-- channel.
pub crashed_iff : (f : ℕ → Bool) → (((i : ℕ) × (f i ≡ true)) ↔ Leads (open_conn (idle f)) crashed)
unfolding IsSound
crashed_iff f =
    (λ (i, e). offers_and_panics i (next start ends) (ap waiting e) refl, λ l. Leads-IsSound f l)

-- In every state behind the end of a connection: if a goroutine whose answer is an output channel
-- still waits for `writeLK`, or has begun to offer the channel, whatever the others are doing, then
-- the process can still end by a send on the closed `registerCh`.
pub ended-crashed :
    (f : ℕ → Bool) (out : Bool) (s : Writers) (i : ℕ)
    → Leads (open_conn (idle f)) (ended out s)
    → (s.goroutine i ≡ waiting true) ⊎ (s.goroutine i ≡ offering)
    → Leads (ended out s) crashed
unfolding IsSound
ended-crashed f out s i l (inr w) = next start (panics i w)
ended-crashed f out s i l (inl w) =
    let h = (Leads-IsSound f l).0 in
    elim (owner_cases s.owner) [
      | inl free ↦ offers_and_panics i start w free
      | inr (inl o) ↦
          offers_and_panics i (next start (goes_on (unlock_out (h.sender o)) refl)) w refl
      | inr (inr (j, own)) ↦ elim (holds_cases (s.goroutine j) (h.holder j own)) [
        | inl off ↦ next start (panics j off)
        | inr wr ↦
            let apart : j ≢ i = ground arith in
            offers_and_panics i (next start (goes_on (unlock j wr) refl))
              (subst (λ x. x ≡ waiting true) (sym (update_other s.goroutine j i finished apart)) w)
              refl
      ]
    ]
