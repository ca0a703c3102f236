-- ===== src/Scheduling/Creation.antt =====
-- src/scheduling/scheduling-repo.ts: how a scheduled action is created, and the reminders to come.
use text.Mathlib.Text.{◌==◌ as str_eq}
use agent_orchestrator.Base.{
  ℕ, ◌+◌, ◌*◌, String, Bool, true, false, ◌&&◌, ◌||◌, Option, some, none, List, [], ◌∷◌, ◌++◌, ltb,
  leb, ◌==◌, select, take, map, first, has_id, order_by,
}
use agent_orchestrator.Outbound.Rows.{ActionStatus}
use agent_orchestrator.Scheduling.Rows.{
  ScheduleActionKind, is_reminder, RecurrenceKind, ScheduleRoute, ScheduledAction, Tables,
  is_pending,
}

pub record CreateInput : Type 0 where
  pub source_chat_id : String
  pub source_message_id : ℕ
  pub source_thread_id : String
  pub created_by : String
  pub customer_id : String
  pub kind : ScheduleActionKind
  pub execute_at : ℕ
  pub expires_at : ℕ
  pub timezone : String
  pub body : String
  pub context_snapshot : Option String
  pub route : Option ScheduleRoute
  pub recurrence_kind : Option RecurrenceKind
  pub recurrence_detail : Option String

-- `input.route?.field ?? null`
abbrev of_route : (ScheduleRoute → Option String) → Option ScheduleRoute → Option String
of_route field none = none
of_route field (some r) = field r

abbrev pub new_action : ℕ → ℕ → CreateInput → ScheduledAction
new_action now k input = record {
  id = k;
  source_chat_id = some input.source_chat_id;
  source_message_id = some input.source_message_id;
  source_thread_id = some input.source_thread_id;
  created_by = input.created_by;
  customer_id = some input.customer_id;
  action_kind = input.kind;
  status = ActionStatus.pending;
  execute_at = input.execute_at;
  expires_at = input.expires_at;
  timezone = input.timezone;
  body = input.body;
  context_snapshot = input.context_snapshot;
  channel_instance_id = of_route (λ r. some r.channel_instance_id) input.route;
  channel_type = of_route (λ r. some r.channel_type) input.route;
  recipient_address = of_route (λ r. some r.recipient_address) input.route;
  recipient_label = of_route (λ r. some r.recipient_label) input.route;
  thread_key = of_route (λ r. r.thread_key) input.route;
  in_reply_to = of_route (λ r. r.in_reply_to) input.route;
  subject = of_route (λ r. r.subject) input.route;
  retry_count = 0;
  recurrence_kind = input.recurrence_kind;
  recurrence_detail = input.recurrence_detail;
  claimed_at = none;
  completed_at = none;
  last_error = none;
  updated_at = now;
}

abbrev same_text : Option String → String → Bool
same_text none s = false
same_text (some t) s = str_eq t s

-- The unique key (source_chat_id, source_message_id); NULL is distinct from every value.
abbrev pub from_command : String → ℕ → ScheduledAction → Bool
from_command chat message a = same_text a.source_chat_id chat && has_id a.source_message_id message

abbrev pub find_command : String → ℕ → Tables → Option ScheduledAction
find_command chat message db = first (select (from_command chat message) db.actions)

abbrev pub append_action : ScheduledAction → Tables → Tables
append_action a db = record db { actions = db.actions ++ a ∷ []; next_action = db.next_action + 1 }

abbrev pub created_unless :
    ℕ → CreateInput → Tables → Option ScheduledAction → Tables × ScheduledAction × Bool
created_unless now input db none =
    let a = new_action now db.next_action input in (append_action a db, a, true)
created_unless now input db (some a) = (db, a, false)

-- INSERT ... ON CONFLICT DO NOTHING, and the SELECT of the row that is there.
unfoldable pub create_scheduled_action : ℕ → CreateInput → Tables → Tables × ScheduledAction × Bool
create_scheduled_action now input db =
    created_unless now input db (find_command input.source_chat_id input.source_message_id db)

-- `grace` is env.TELEGRAM_SCHEDULING_GRACE_MINUTES.
abbrev pub app_reminder :
    ℕ
    → ℕ
    → ℕ
    → (body : String) → (execute_at : ℕ) → (timezone : String) → Option String
    → (created_by : String) → ScheduledAction
app_reminder grace now k body execute_at timezone customer created_by = record {
  id = k;
  source_chat_id = none;
  source_message_id = none;
  source_thread_id = none;
  created_by = created_by;
  customer_id = customer;
  action_kind = ScheduleActionKind.reminder;
  status = ActionStatus.pending;
  execute_at = execute_at;
  expires_at = execute_at + grace * 60000;
  timezone = timezone;
  body = body;
  context_snapshot = none;
  channel_instance_id = none;
  channel_type = none;
  recipient_address = none;
  recipient_label = none;
  thread_key = none;
  in_reply_to = none;
  subject = none;
  retry_count = 0;
  recurrence_kind = none;
  recurrence_detail = none;
  claimed_at = none;
  completed_at = none;
  last_error = none;
  updated_at = now;
}

unfoldable pub create_app_reminder :
    ℕ
    → ℕ
    → (body : String) → (execute_at : ℕ) → (timezone : String) → Option String
    → (created_by : String) → Tables
    → Tables × ℕ
create_app_reminder grace now body execute_at timezone customer created_by db = (
  append_action (app_reminder grace now db.next_action body execute_at timezone customer created_by)
      db,
  db.next_action,
)

-- ORDER BY execute_at, id
abbrev pub sooner : ScheduledAction → ScheduledAction → Bool
sooner a b = ltb a.execute_at b.execute_at || (a.execute_at == b.execute_at && leb a.id b.id)

pub record UpcomingReminder : Type 0 where
  pub id : ℕ
  pub body : String
  pub execute_at : ℕ
  pub customer_id : Option String

abbrev is_upcoming : ℕ → ScheduledAction → Bool
is_upcoming now a = is_reminder a.action_kind && is_pending a.status && ltb now a.execute_at

unfoldable pub list_upcoming_reminders : ℕ → ℕ → Tables → List UpcomingReminder
list_upcoming_reminders now limit db =
    map
      (λ a. record {
        id = a.id;
        body = a.body;
        execute_at = a.execute_at;
        customer_id = a.customer_id;
      })
      (take limit (order_by sooner (select (is_upcoming now) db.actions)))
