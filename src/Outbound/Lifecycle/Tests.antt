-- ===== src/Outbound/Lifecycle/Tests.antt =====
-- The theorems on interleavings at concrete tables.
use agent_orchestrator.Base.{◌+◌, ◌≤◌, ◌≡◌, true, false, [], ◌∷◌, ◌++◌, refl, arith}
use agent_orchestrator.Outbound.Rows.{Status}
use agent_orchestrator.Outbound.Drainer.{World, delivered, message_of, process_row}
use agent_orchestrator.Outbound.Drainer.Handled.{Handled, PassesGates, process_row-Handled}
use agent_orchestrator.Outbound.Queue.{reclaim_stuck}
use agent_orchestrator.Outbound.Lifecycle.{
  Fleet, Reach, Reach-trans, here, next, tables, hands_over, reclaim, is_waiting,
}
use agent_orchestrator.Outbound.Lifecycle.Sound.{attempts, times, IsSound}
use agent_orchestrator.Outbound.Lifecycle.Attempts.{attempts-le-three, one_holder}
use agent_orchestrator.Outbound.Lifecycle.Final.{Rests, final_never_sent_again}
use agent_orchestrator.Outbound.Lifecycle.Sessions.{fleet, process_row-Reach}
use agent_orchestrator.Outbound.Samples.{
  row_in, db_of, claimed_in, world_of, minutes_clock, sunday, no_holidays, settings, registry_of,
  noon,
}

abbrev two_rows : World
two_rows = world_of (db_of (row_in 1 Status.sending ∷ row_in 2 Status.sent ∷ []))

abbrev start : Fleet
start = fleet two_rows (claimed_in 1 ∷ []) []

start-IsSound : IsSound start
unfolding attempts times
start-IsSound = record {
  unique = (refl, (refl, tt));
  fresh = λ j h. ground arith;
  fit = λ j. ground arith;
}

abbrev after_one : World
after_one =
    process_row minutes_clock settings registry_of sunday no_holidays noon false (claimed_in 1)
      (delivered "p1") two_rows

-- While the session has the row, another one reclaims it.
abbrev reclaimed : World
reclaimed = record two_rows { db = (reclaim_stuck 99999999999999 10 two_rows.db).0 }

abbrev end : Fleet
end =
    fleet
      (process_row minutes_clock settings registry_of sunday no_holidays noon false (claimed_in 1)
        (delivered "p1") reclaimed)
      [] []

run : Reach start end
run = Reach-trans (next here (tables (reclaim 99999999999999 10))) (
    process_row-Reach [] (claimed_in 1) [] [] minutes_clock settings registry_of sunday no_holidays
      noon false (delivered "p1") reclaimed)

process_row-Handled_example :
    Handled
      (PassesGates minutes_clock settings registry_of sunday no_holidays noon false
        (claimed_in 1)
        two_rows)
      (claimed_in 1)
      two_rows
      after_one
process_row-Handled_example =
    process_row-Handled minutes_clock settings registry_of sunday no_holidays noon false
      (claimed_in 1) (delivered "p1") two_rows

attempts-le-three_example : attempts 1 end.dispatched ≤ 3
attempts-le-three_example = attempts-le-three {s = start} {t = end} 1 start-IsSound run

-- The session has handed the row over.
abbrev in_flight : Fleet
in_flight = record start {
  dispatched = start.dispatched ++ (1, message_of (claimed_in 1)) ∷ [];
  held = [];
  flying = claimed_in 1 ∷ [];
}

one_holder_example :
    (times 1 in_flight.held + times 1 in_flight.flying ≤ 1)
    × (is_waiting Status.sending ≡ true → times 1 in_flight.held + times 1 in_flight.flying ≡ 0)
one_holder_example =
    one_holder {s = start} {t = in_flight} 1 (row_in 1 Status.sending) start-IsSound
      (next here (hands_over [] (claimed_in 1) [] refl)) refl

final_never_sent_again_example : Rests 2 Status.sent 0 end
unfolding attempts times
final_never_sent_again_example =
    final_never_sent_again {s = start} {t = end} 2 Status.sent 0 refl start-IsSound run
      (row_in 2 Status.sent, refl, refl, refl, refl, refl)
