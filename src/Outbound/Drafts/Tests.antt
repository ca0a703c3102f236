-- ===== src/Outbound/Drafts/Tests.antt =====
-- The theorems on drafts at concrete tables.
use agent_orchestrator.Base.{true, some, none, [], ◌∷◌, ◌≡◌, refl, find_row}
use agent_orchestrator.Outbound.Rows.{Status, decision_key, Db}
use agent_orchestrator.Outbound.Queue.{stamp}
use agent_orchestrator.Outbound.Queue.Effects.{row_at}
use agent_orchestrator.Outbound.Drafts.{
  committed, rolled_back, tables_after, DraftResolution, open_draft, flip_draft_and_resolve,
  replace_draft_body_and_approve, revise_draft,
}
use agent_orchestrator.Outbound.Drafts.Decided.{
  amend, refuse, decide, decided_row, resolved, decide_once, decide_agrees,
}
use agent_orchestrator.Outbound.Drafts.Revised.{rewritten, superseded, revise_draft_keeps_open}
use agent_orchestrator.Outbound.Samples.{row_in, draft_in, open_decision, db_of}

abbrev drafted : Db
drafted = db_of (draft_in 1 ∷ row_in 2 Status.approved ∷ [])

abbrev amended : Db
amended = tables_after drafted (decide (amend "better" "founder") 50 1 drafted)

abbrev found : DraftResolution
found = record { queue_id = 1; decision_id = some 7; customer_id = none }

amends : decide (amend "better" "founder") 50 1 drafted ≡ committed found amended
unfolding decide replace_draft_body_and_approve flip_draft_and_resolve
amends = refl

decide_once_example : decide (refuse "founder") 60 1 amended ≡ rolled_back
decide_once_example =
    decide_once (amend "better" "founder") (refuse "founder") 50 60 1 drafted amended found amends

decide_agrees_example :
    (row_at 1 amended ≡ some (stamp 50 (decided_row (amend "better" "founder") 50) (draft_in 1)))
    × (find_row decision_key 7 amended.decisions
        ≡ some (resolved (amend "better" "founder") 50 open_decision))
decide_agrees_example =
    decide_agrees (amend "better" "founder") 50 1 drafted amended found (draft_in 1) 7 open_decision
      (refl, (refl, tt)) amends refl refl refl refl

revise_draft_keeps_open_example :
    (db' : Db) × (revise_draft 50 1 "new" "{}" "shorter" "founder" none drafted
      ≡ committed
          (record {
            queue_id = 1;
            old_decision_id = some 7;
            new_decision_id = some 8;
            customer_id = none;
          })
          db')
    × (row_at 1 db'
        ≡ some (
            rewritten 50 1 "new" "{}" "shorter" "founder" none drafted
              (draft_in 1)
              7
              open_decision))
    × (open_draft 1
          (rewritten 50 1 "new" "{}" "shorter" "founder" none drafted (draft_in 1) 7 open_decision)
        ≡ true)
    × (find_row decision_key 7 db'.decisions
        ≡ some (
            superseded 50 1 "new" "{}" "shorter" "founder" none drafted
              (draft_in 1)
              7
              open_decision))
    × (find_row decision_key 8 db'.decisions
        ≡ some (record open_decision { id = 8; agent_output = "{}" }))
revise_draft_keeps_open_example =
    revise_draft_keeps_open 50 1 "new" "{}" "shorter" "founder" none drafted (draft_in 1) 7
      open_decision (refl, (refl, tt)) refl refl refl refl refl refl
