-- ===== src/Scheduling/Lifecycle/Tests.antt =====
-- The theorems about src/scheduling/scheduling-repo.ts at concrete tables.
use agent_orchestrator.Base.{ℕ, Bool, false, some, none, [], ◌∷◌, ◌≡◌, refl, arith, map}
use agent_orchestrator.Outbound.Rows.{ActionStatus}
use agent_orchestrator.Scheduling.Rows.{ScheduleActionKind, ScheduledAction, Tables}
use agent_orchestrator.Scheduling.Samples.{message_in, tables_of}
use agent_orchestrator.Scheduling.Actions.{
  claim_due, dispatch_customer_message, cancel_scheduled_action,
}
use agent_orchestrator.Scheduling.Creation.{
  CreateInput, create_scheduled_action, create_app_reminder, list_upcoming_reminders,
}
use agent_orchestrator.Scheduling.Actions.Edges.{is_open}
use agent_orchestrator.Scheduling.Actions.Kept.{action_at, Sound}
use agent_orchestrator.Scheduling.Lifecycle.{
  Reach, here, and_then, claims, dispatches, at_most_one_row, closed_stays,
}
use agent_orchestrator.Scheduling.Lifecycle.Once.{create_again}

abbrev start : Tables
start = tables_of (message_in 1 ActionStatus.pending ∷ message_in 2 ActionStatus.completed ∷ [])

abbrev unlocked : ℕ → Bool
unlocked k = false

start-Sound : Sound start
start-Sound = record {
  unique = (refl, (refl, tt));
  fresh = λ k above. ground (arith, above);
  unknown = λ k e. refl;
  unsent = λ k a e opened. refl;
  single = λ k. omega arith;
}

abbrev claimed : Tables
claimed = (claim_due 5 2000 unlocked start).0

run : Reach start (dispatch_customer_message 2100 1 claimed).0
run = and_then (and_then (here start) (claims 5 2000 unlocked start)) (dispatches 2100 1 claimed)

at_most_one_row_example : Sound (dispatch_customer_message 2100 1 claimed).0
at_most_one_row_example = at_most_one_row run start-Sound

closed_stays_example :
    (b : ScheduledAction) × (action_at 2 (dispatch_customer_message 2100 1 claimed).0 ≡ some b)
    × (is_open b.status ≡ false)
closed_stays_example =
    closed_stays 2 {a = message_in 2 ActionStatus.completed} run start-Sound refl refl

abbrev called_off : Tables
called_off = (cancel_scheduled_action 900 1 start).0

abbrev command : CreateInput
command = record {
  source_chat_id = "chat";
  source_message_id = 7;
  source_thread_id = "topic";
  created_by = "founder";
  customer_id = "c";
  kind = ScheduleActionKind.reminder;
  execute_at = 5000;
  expires_at = 6000;
  timezone = "America/Panama";
  body = "call";
  context_snapshot = none;
  route = none;
  recurrence_kind = none;
  recurrence_detail = none;
}

create_again_example :
    create_scheduled_action 950 command (create_scheduled_action 900 command start).0 ≡ (
      (create_scheduled_action 900 command start).0,
      (create_scheduled_action 900 command start).1,
      false,
    )
create_again_example = create_again 900 950 command start

-- Two reminders of the app, the second one due first; the message and what is past are left out.
two_upcoming :
    map
      (λ r. r.id)
      (list_upcoming_reminders 3000 5
        (create_app_reminder 60 2000 "call" 4000 "UTC" none "app"
          (create_app_reminder 60 2000 "write" 5000 "UTC" none "app" start).0).0)
    ≡ (11 ∷ 10 ∷ [])
unfolding list_upcoming_reminders create_app_reminder
two_upcoming = refl
