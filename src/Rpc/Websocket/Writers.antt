-- ===== src/Rpc/Websocket/Writers.antt =====
-- The goroutines that share `writeLK` and `registerCh`: `nextWriter` with the callback of `handle`,
-- `sendRequest`, and `handleOutChans`, one shared access at a time.
pub mod Exclusion
pub mod Deadlock
pub mod Ending
use mathlib.Core.Logic.{ite}
use native.Mathlib.Decide.{ℕ_discrete}
use lotus_dashboard.Common.{ℕ, ◌+◌, ◌<◌, ◌≡◌, Bool, true, false, Option, none, some}

-- A goroutine that answers a call or sends one request: it waits for `writeLK`, and while it holds
-- it, it may offer a channel to `registerCh`, and writes. A write of `sendRequest` that fails ends
-- the process, and does not appear here; the end of the connection is in Writers.Ending.
pub data Writer : Type 0 where
  waiting : Bool → Writer  -- whether the answer is a channel
  offering : Writer  -- in `handleChanOut`, at `c.registerCh <-`
  writing : Writer
  finished : Writer

-- `handleOutChans`: at its `select`, before the lock of `sendRequest` with a message, or behind it.
pub data Forwarder : Type 0 where
  selecting locking sending : Forwarder

-- Who has locked `writeLK`.
pub data Owner : Type 0 where
  nobody : Owner
  forwarder : Owner
  writer : ℕ → Owner

pub record Writers : Type 0 where
  pub owner : Owner
  pub out : Forwarder
  pub goroutine : ℕ → Writer
  pub channels : ℕ  -- how many output channels `handleOutChans` has
  pub written : ℕ  -- how many messages are on the wire

abbrev pub update : (ℕ → Writer) → ℕ → Writer → ℕ → Writer
update f i w j = ite (ℕ_discrete i j) w (f j)

-- A shared access of one goroutine.
pub data Access (s : Writers) : Writers → Type 0 where
  -- `c.writeLK.Lock()` of `nextWriter` or `sendRequest`
  lock :
      (i : ℕ)
      → s.goroutine i ≡ waiting false
      → s.owner ≡ nobody
      → Access s (record s { owner = writer i; goroutine = update s.goroutine i writing })
  -- the same, for an answer that is a channel: the callback runs `chOut` first
  lock_and_offer :
      (i : ℕ)
      → s.goroutine i ≡ waiting true
      → s.owner ≡ nobody
      → Access s (record s { owner = writer i; goroutine = update s.goroutine i offering })
  -- `registerCh` has no buffer: the two goroutines meet
  register :
      (i : ℕ)
      → s.goroutine i ≡ offering
      → s.out ≡ selecting
      → Access s (record s { goroutine = update s.goroutine i writing; channels = s.channels + 1 })
  -- the message is written, and the lock released
  unlock :
      (i : ℕ)
      → s.goroutine i ≡ writing
      → Access s (record s {
        owner = nobody;
        goroutine = update s.goroutine i finished;
        written = s.written + 1;
      })
  -- no writer is to be had: `nextWriter` releases the lock at once and does not run its callback
  give_up :
      (i : ℕ) (b : Bool)
      → s.goroutine i ≡ waiting b
      → s.owner ≡ nobody
      → Access s (record s { goroutine = update s.goroutine i finished })
  -- the message cannot be written
  fail :
      (i : ℕ)
      → s.goroutine i ≡ writing
      → Access s (record s { owner = nobody; goroutine = update s.goroutine i finished })
  -- an output channel gives a value, or is closed
  gives : s.out ≡ selecting → 0 < s.channels → Access s (record s { out = locking })
  closes :
      (k : ℕ)
      → s.out ≡ selecting
      → s.channels ≡ k + 1
      → Access s (record s { out = locking; channels = k })
  lock_out :
      s.out ≡ locking → s.owner ≡ nobody → Access s (record s { owner = forwarder; out = sending })
  unlock_out :
      s.out ≡ sending
      → Access s (record s { owner = nobody; out = selecting; written = s.written + 1 })

-- At the start nobody writes; the goroutines are about to.
abbrev pub idle : (ℕ → Bool) → Writers
idle channels = record {
  owner = nobody;
  out = selecting;
  goroutine = λ i. waiting (channels i);
  channels = 0;
  written = 0;
}

pub data Schedule (s : Writers) : Writers → Type 0 where
  here : Schedule s s
  then : {t u : Writers} → Schedule s t → Access t u → Schedule s u
