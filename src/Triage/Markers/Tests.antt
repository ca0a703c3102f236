-- ===== src/Triage/Markers/Tests.antt =====
-- Runs of src/triage/thread-markers.ts over an empty app_state.
use agent_orchestrator.Base.{true, some, [], ◌≡◌, refl, arith, take}
use agent_orchestrator.AppState.{AppState}
use agent_orchestrator.AppState.Store.{app_state_store, get-empty}
use agent_orchestrator.Triage.Markers.{
  MarkerKind, marker_key, draft_edit, ask_founder, marker_ttl_ms, arm, arm_ops, run_ops, read,
}
use agent_orchestrator.Triage.Markers.Exclusion.{is_armed, Exclusive, arm_cut_short}
use agent_orchestrator.Triage.Markers.Reading.{read-arm}
use agent_orchestrator.Triage.Samples.{codec}

abbrev empty : AppState
empty = []

empty-Exclusive : Exclusive app_state_store "t" empty
empty-Exclusive k j a b = ground (arith, a, get-empty (marker_key k "t"))

arm_cut_short_example :
    Exclusive app_state_store "t"
      (run_ops app_state_store (take 2 (arm_ops codec 1000 draft_edit "t" "q1")) empty)
    × ((k : MarkerKind)
        → is_armed app_state_store k "t" (arm app_state_store codec 1000 draft_edit "t" "q1" empty)
          ≡ true
        → k ≡ draft_edit)
arm_cut_short_example =
    arm_cut_short app_state_store "t" codec 1000 draft_edit "q1" empty 2 "t" empty-Exclusive

read-arm_example :
    read app_state_store codec 5000 ask_founder "t"
      (arm app_state_store codec 1000 ask_founder "t" "Q" empty)
    ≡ (arm app_state_store codec 1000 ask_founder "t" "Q" empty, some "Q")
unfolding marker_ttl_ms
read-arm_example =
    read-arm app_state_store codec 1000 ask_founder "t" "Q" empty ask_founder 5000 (refl, refl)
