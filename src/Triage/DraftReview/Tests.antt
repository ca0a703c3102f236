-- ===== src/Triage/DraftReview/Tests.antt =====
-- A draft whose text is replaced, over an empty app_state.
use agent_orchestrator.Base.{ℕ, String, str_eq, true, false, some, [], ◌∷◌, ◌≡◌, refl}
use agent_orchestrator.AppState.{AppState}
use agent_orchestrator.AppState.Store.{app_state_store}
use agent_orchestrator.Outbound.Samples.{db_of, draft_in}
use agent_orchestrator.Outbound.Drafts.{replace_draft_body_and_approve, DraftResolution, committed}
use agent_orchestrator.Outbound.Rows.{Db}
use agent_orchestrator.Triage.Markers.{marker_ttl_ms}
use agent_orchestrator.Triage.Samples.{codec}
use agent_orchestrator.Triage.DraftReview.{Desk, draft_edit_message}
use agent_orchestrator.Triage.DraftReview.Replays.{tapped, edited_after_tap}

abbrev desk : Desk AppState
desk = record { db = db_of (draft_in 1 ∷ []); state = []; told = [] }

-- The codec's one marker holds "Q", which names row 1.
abbrev number_of : String → ℕ
number_of s = 1

abbrev tap : Desk AppState
tap = tapped app_state_store codec number_of "t" "Q" "f" 1000 true desk

edited_after_tap_example :
    (str_eq "Hello" "" ≡ true
      → draft_edit_message app_state_store codec number_of 5000 (λ s. s) "t" "Hello" "f" tap
        ≡ (tap, some true))
    × (str_eq "Hello" "" ≡ false
        → (res : DraftResolution) × (after : Db) × (w' : Desk AppState)
          × (replace_draft_body_and_approve 5000 1 "Hello" "f" desk.db ≡ committed res after)
          × (draft_edit_message app_state_store codec number_of 5000 (λ s. s) "t" "Hello" "f" tap
              ≡ (w', some true))
          × (w'.db ≡ after)
          × (draft_edit_message app_state_store codec number_of 9000 (λ s. s) "t" "Hello" "f" w'
              ≡ (w', some false)))
unfolding marker_ttl_ms
edited_after_tap_example =
    edited_after_tap app_state_store codec number_of "t" "Q" "f" 1000 true desk (λ s. s) 5000 9000
      "Hello" "f" "Hello" "f" (refl, refl) refl refl refl refl
