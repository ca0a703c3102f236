-- ===== src/Scheduling/Samples.antt =====
-- Small tables of scheduled actions for the tests.
use agent_orchestrator.Base.{ℕ, some, none, List, []}
use agent_orchestrator.Outbound.Rows.{ActionStatus}
use agent_orchestrator.Scheduling.Rows.{ScheduleActionKind, ScheduledAction, Tables}

-- A message to a customer, due at 1000.
abbrev pub message_in : ℕ → ActionStatus → ScheduledAction
message_in k status = record {
  id = k;
  source_chat_id = some "chat";
  source_message_id = some k;
  source_thread_id = some "topic";
  created_by = "founder";
  customer_id = some "c";
  action_kind = ScheduleActionKind.customer_message;
  status = status;
  execute_at = 1000;
  expires_at = 9000;
  timezone = "America/Panama";
  body = "hello";
  context_snapshot = none;
  channel_instance_id = some "wa";
  channel_type = some "whatsapp";
  recipient_address = some "507";
  recipient_label = none;
  thread_key = none;
  in_reply_to = none;
  subject = none;
  retry_count = 0;
  recurrence_kind = none;
  recurrence_detail = none;
  claimed_at = none;
  completed_at = none;
  last_error = none;
  updated_at = 500;
}

abbrev pub tables_of : List ScheduledAction → Tables
tables_of actions = record { actions = actions; queue = []; next_action = 10; next_row = 1 }
