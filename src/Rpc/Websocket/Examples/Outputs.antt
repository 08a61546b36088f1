-- ===== src/Rpc/Websocket/Examples/Outputs.antt =====
-- Output channels, the writers of a connection, and its end, on concrete inputs.
use mathlib.Core.List.{Nodup}
use lotus_dashboard.Common.{
  ℕ, ◌≡◌, ◌⊎◌, ◌↔◌, inl, ◌++◌, refl, List, [], ◌∷◌, Bool, true, arith, map,
}
use lotus_dashboard.Rpc.Websocket.{WsConn, handle_chan_out}
use lotus_dashboard.Rpc.Websocket.Loop.{start, connect}
use lotus_dashboard.Rpc.Websocket.OutChans.{output_closed, out_step}
use lotus_dashboard.Rpc.Websocket.OutTable.{table_of, Moves, out_step-Moves}
use lotus_dashboard.Rpc.Websocket.OutIds.{Life, opened, makes, registered, Life-distinct}
use lotus_dashboard.Rpc.Websocket.Writers.{
  Writers, offering, writer, update, idle, Schedule, here, then, Access, lock_and_offer,
}
use lotus_dashboard.Rpc.Websocket.Writers.Ending.{
  ended, crashed, open_conn, ends, Leads, start, next, crashed_iff, ended-crashed,
}
use lotus_dashboard.Rpc.Websocket.Writers.Deadlock.{IsStuck, deadlock, progress}
use lotus_dashboard.Rpc.Websocket.Examples.{numbers}

-- Three channels, of which the first closes.
abbrev three : List (ℕ × ℕ)
three = (4, 10) ∷ (5, 11) ∷ (6, 12) ∷ []

out_step-Moves_example :
    Moves numbers three (output_closed 1) (out_step numbers (table_of three) (output_closed 1))
out_step-Moves_example = out_step-Moves numbers three (output_closed 1) (omega arith)

-- Two channels are made, and the first is received.
abbrev two_made : WsConn ℕ
two_made = (handle_chan_out numbers 11 (handle_chan_out numbers 10 connect).1).1

two_made-Life : Life numbers 2 two_made (table_of ((1, 10) ∷ [])) ((2, 11) ∷ [])
unfolding handle_chan_out connect out_step
two_made-Life = registered [] ((2, 11) ∷ []) 1 10 refl (makes 11 (makes 10 opened)) refl

Life-distinct_example :
    (ps : List (ℕ × ℕ)) × (table_of ((1, 10) ∷ []) ≡ table_of ps)
    × Nodup (map (λ p. p.0) (ps ++ (2, 11) ∷ []))
Life-distinct_example =
    Life-distinct numbers 2 two_made (table_of ((1, 10) ∷ [])) ((2, 11) ∷ []) (omega arith)
      two_made-Life

-- Every call is answered by a channel.
abbrev channels : ℕ → Bool
channels i = true

deadlock_example :
    (s : Writers) × Schedule (idle channels) s × IsStuck s × ((t : Writers) → ¬ Access s t)
deadlock_example = deadlock channels 0 1 refl refl (ground arith)

-- Goroutine 0 has the lock and offers its channel.
abbrev one_offers : Writers
one_offers = record (idle channels) {
  owner = writer 0;
  goroutine = update (idle channels).goroutine 0 offering;
}

progress_example : IsStuck one_offers ⊎ ((t : Writers) × Access one_offers t)
progress_example =
    progress channels one_offers 1 (then here (lock_and_offer 0 refl refl)) (ground arith)

crashed_iff_example : ((i : ℕ) × (channels i ≡ true)) ↔ Leads (open_conn (idle channels)) crashed
crashed_iff_example = crashed_iff channels

-- The connection has ended while every call is about to answer.
ended_early : Leads (open_conn (idle channels)) (ended true (idle channels))
ended_early = next start ends

ended-crashed_example : Leads (ended true (idle channels)) crashed
ended-crashed_example = ended-crashed channels true (idle channels) 3 ended_early (inl refl)
