-- ===== src/Scheduling/Rows.antt =====
-- The tables that src/scheduling/scheduling-repo.ts reads and writes: scheduled_actions, and the
-- rows of agent_outbound_queue that a due customer message becomes. JSON is its serialised text.
use agent_orchestrator.Base.{ℕ, String, Bool, true, false, Option, List}
use agent_orchestrator.Outbound.Rows.{ActionStatus, OutboundRow}

pub data ScheduleActionKind : Type 0 where
  customer_message reminder : ScheduleActionKind

abbrev pub is_reminder : ScheduleActionKind → Bool
is_reminder ScheduleActionKind.reminder = true
is_reminder ScheduleActionKind.customer_message = false

pub data RecurrenceKind : Type 0 where
  daily weekly monthly : RecurrenceKind

pub record ScheduleRoute : Type 0 where
  pub channel_instance_id : String
  pub channel_type : String
  pub recipient_address : String
  pub recipient_label : String
  pub thread_key : Option String
  pub in_reply_to : Option String
  pub subject : Option String
  pub is_group : Bool

pub record ScheduledAction : Type 0 where
  pub id : ℕ
  pub source_chat_id : Option String
  pub source_message_id : Option ℕ
  pub source_thread_id : Option String
  pub created_by : String
  pub customer_id : Option String
  pub action_kind : ScheduleActionKind
  pub status : ActionStatus
  pub execute_at : ℕ
  pub expires_at : ℕ
  pub timezone : String
  pub body : String
  pub context_snapshot : Option String
  pub channel_instance_id : Option String
  pub channel_type : Option String
  pub recipient_address : Option String
  pub recipient_label : Option String
  pub thread_key : Option String
  pub in_reply_to : Option String
  pub subject : Option String
  pub retry_count : ℕ
  pub recurrence_kind : Option RecurrenceKind
  pub recurrence_detail : Option String
  pub claimed_at : Option ℕ
  pub completed_at : Option ℕ
  pub last_error : Option String
  pub updated_at : ℕ

abbrev pub action_id : ScheduledAction → ℕ
action_id a = a.id

-- `next_action` and `next_row` are the BIGSERIAL sequences.
pub record Tables : Type 0 where
  pub actions : List ScheduledAction
  pub queue : List OutboundRow
  pub next_action : ℕ
  pub next_row : ℕ

abbrev pub is_pending : ActionStatus → Bool
is_pending ActionStatus.pending = true
is_pending _ = false

abbrev pub is_running : ActionStatus → Bool
is_running ActionStatus.running = true
is_running _ = false

abbrev pub is_dispatched : ActionStatus → Bool
is_dispatched ActionStatus.dispatched = true
is_dispatched _ = false

-- completed, cancelled, missed or failed
abbrev pub is_final : ActionStatus → Bool
is_final ActionStatus.pending = false
is_final ActionStatus.running = false
is_final ActionStatus.dispatched = false
is_final _ = true
