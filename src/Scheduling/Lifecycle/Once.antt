-- ===== src/Scheduling/Lifecycle/Once.antt =====
-- What a cancellation promises, and a command that is delivered again.
use text.Mathlib.TextPositions.{eq_refl}
use agent_orchestrator.Base.{
  ℕ, false, some, ◌≡◌, refl, arith, inl, inr, length, select, Option-cases, ==_iff,
  first-select-added,
}
use agent_orchestrator.Outbound.Rows.{ActionStatus}
use agent_orchestrator.Scheduling.Rows.{ScheduledAction, Tables}
use agent_orchestrator.Scheduling.Actions.{unsent}
use agent_orchestrator.Scheduling.Creation.{
  CreateInput, new_action, from_command, find_command, create_scheduled_action,
}
use agent_orchestrator.Scheduling.Actions.Kept.{action_at}

-- The action is cancelled, and no approved row of it is left in the queue.
pub record CalledOff (k : ℕ) (db : Tables) : Type 0 where
  pub action : ScheduledAction
  pub found : action_at k db ≡ some action
  pub status : action.status ≡ ActionStatus.cancelled
  pub recalled : length (select (unsent k) db.queue) ≡ 0

-- A command that is delivered again makes no second action: it is answered with the first one, and
-- the tables stay as they are.
pub create_again :
    (now later : ℕ) (input : CreateInput) (db : Tables)
    → create_scheduled_action later input (create_scheduled_action now input db).0
      ≡ ((create_scheduled_action now input db).0, (create_scheduled_action now input db).1, false)
unfolding create_scheduled_action
create_again now later input db =
    elim (Option-cases (find_command input.source_chat_id input.source_message_id db)) [
      | inl absent ↦
          rw
            (
              absent,
              first-select-added (from_command input.source_chat_id input.source_message_id)
                  db.actions (new_action now db.next_action input) absent
                  (ground (
                    arith,
                    eq_refl input.source_chat_id,
                    ==_iff input.source_message_id input.source_message_id,
                  )),
            )
            refl
      | inr (a, e) ↦ rw (e, e) refl
    ]
