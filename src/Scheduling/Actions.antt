-- ===== src/Scheduling/Actions.antt =====
-- The operations of src/scheduling/scheduling-repo.ts on scheduled actions. Every UPDATE also sets
-- `updated_at`, by the tables' triggers; a transaction that rolls back leaves the tables alone.
pub mod Edges
pub mod Kept
pub mod Moves
pub mod Handovers
use text.Mathlib.Text.{◌==◌ as str_eq}
use Prim.Native.String
use agent_orchestrator.Base.{
  ℕ, ◌+◌, ◌*◌, String, Bool, true, false, ◌&&◌, ◌||◌, not, Option, some, none, List, [], ◌∷◌, ◌++◌,
  ltb, leb, ◌==◌, if◌then◌else◌, select, take, map, member, first, length, update_where, find_row,
  is_some, has_id, get_or_else, order_by,
}
use agent_orchestrator.Outbound.Rows.{Status, is_approved, ActionStatus, OutboundRow}
use agent_orchestrator.Scheduling.Creation.{sooner}
use agent_orchestrator.Scheduling.Rows.{
  ScheduleActionKind, is_reminder, RecurrenceKind, ScheduleRoute, ScheduledAction, action_id,
  Tables, is_pending, is_running, is_dispatched, is_final,
}

abbrev pub stamp : ℕ → (ScheduledAction → ScheduledAction) → ScheduledAction → ScheduledAction
stamp now f a = record (f a) { updated_at = now }

abbrev pub update_actions :
    ℕ → (ScheduledAction → Bool) → (ScheduledAction → ScheduledAction) → Tables → Tables
update_actions now p f db = record db { actions = update_where p (stamp now f) db.actions }

abbrev pub is_due : ℕ → (ℕ → Bool) → ScheduledAction → Bool
is_due now locked a = is_pending a.status && leb a.execute_at now && not (locked a.id)

abbrev pub chosen : ℕ → ℕ → (ℕ → Bool) → Tables → List ScheduledAction
chosen limit now locked db = take limit (order_by sooner (select (is_due now locked) db.actions))

abbrev pub to_running : ℕ → ScheduledAction → ScheduledAction
to_running now a = record a { status = ActionStatus.running; claimed_at = some now }

-- `locked` is what SKIP LOCKED passes over. RETURNING gives the updated rows.
pub claim_due : ℕ → ℕ → (ℕ → Bool) → Tables → Tables × List ScheduledAction
claim_due limit now locked db =
    let rows = chosen limit now locked db in
    (
      update_actions now (λ a. member a.id (map action_id rows)) (to_running now) db,
      map (stamp now (to_running now)) rows,
    )

abbrev pub with_id : ℕ → ScheduledAction → Bool
with_id k a = a.id == k

abbrev pub of_action : ℕ → OutboundRow → Bool
of_action k r = has_id r.scheduled_action_id k

-- A text that JavaScript takes for true.
abbrev pub is_filled : Option String → Bool
is_filled none = false
is_filled (some t) = not (str_eq t "")

abbrev pub is_sendable : ScheduledAction → Bool
is_sendable a =
    is_running a.status
    && is_filled a.channel_instance_id
    && is_filled a.channel_type
    && is_filled a.recipient_address

abbrev pub queued : ℕ → ℕ → ScheduledAction → OutboundRow
queued now k a = record {
  id = k;
  customer_id = a.customer_id;
  channel_instance_id = get_or_else a.channel_instance_id "";
  recipient_address = get_or_else a.recipient_address "";
  thread_key = a.thread_key;
  in_reply_to = a.in_reply_to;
  subject = a.subject;
  body = a.body;
  status = Status.approved;
  is_draft = false;
  approved_at = some now;
  approved_by = some (String.◌++◌ "telegram:" a.created_by);
  send_after = none;
  provider_message_id = none;
  retry_count = 0;
  last_error = none;
  updated_at = now;
  decision_id = none;
  attachment_ref = none;
  scheduled_action_id = some a.id;
  bypass_send_window = true;
}

-- INSERT ... ON CONFLICT (scheduled_action_id) DO NOTHING
abbrev pub enqueue_once : ℕ → ScheduledAction → Tables → Tables
enqueue_once now a db =
    if is_some (first (select (of_action a.id) db.queue))
    then db
    else record db { queue = db.queue ++ queued now db.next_row a ∷ []; next_row = db.next_row + 1 }

abbrev pub set_status : ActionStatus → ScheduledAction → ScheduledAction
set_status s a = record a { status = s }

abbrev dispatched_if : ℕ → Tables → Option ScheduledAction → Tables × Bool
dispatched_if now db none = (db, false)
dispatched_if now db (some a) =
    if is_sendable a
    then (
      update_actions now (with_id a.id) (set_status ActionStatus.dispatched)
          (enqueue_once now a db),
      true,
    )
    else (db, false)

-- The transaction, with the row locked from its SELECT on.
pub dispatch_customer_message : ℕ → ℕ → Tables → Tables × Bool
dispatch_customer_message now k db = dispatched_if now db (find_row action_id k db.actions)

abbrev pub finish : ActionStatus → ℕ → Option String → ScheduledAction → ScheduledAction
finish s now error a = record a { status = s; completed_at = some now; last_error = error }

pub complete_reminder : ℕ → ℕ → Tables → Tables
complete_reminder now k =
    update_actions now (λ a. a.id == k && is_running a.status)
      (finish ActionStatus.completed now none)

abbrev pub is_rearmable : ℕ → ScheduledAction → Bool
is_rearmable k a =
    a.id == k && is_running a.status && is_reminder a.action_kind && is_some a.recurrence_kind

abbrev pub rearmed : ℕ → ℕ → ScheduledAction → ScheduledAction
rearmed execute_at expires_at a = record a {
  status = ActionStatus.pending;
  execute_at = execute_at;
  expires_at = expires_at;
  claimed_at = none;
  retry_count = 0;
  last_error = none;
}

pub rearm_recurring_reminder : ℕ → ℕ → (execute_at expires_at : ℕ) → Tables → Tables × Bool
rearm_recurring_reminder now k execute_at expires_at db = (
  update_actions now (is_rearmable k) (rearmed execute_at expires_at) db,
  is_some (first (select (is_rearmable k) db.actions)),
)

pub release_action_for_retry : ℕ → ℕ → String → Tables → Tables
release_action_for_retry now k reason =
    update_actions now (λ a. a.id == k && is_running a.status)
      (λ a. record a {
        status = ActionStatus.pending;
        retry_count = a.retry_count + 1;
        claimed_at = none;
        last_error = some reason;
      })

-- The two statuses that markActionTerminal takes.
pub data Terminal : Type 0 where
  failed missed : Terminal

abbrev pub status_of : Terminal → ActionStatus
status_of failed = ActionStatus.failed
status_of missed = ActionStatus.missed

pub mark_action_terminal : ℕ → ℕ → Terminal → String → Tables → Tables
mark_action_terminal now k t reason =
    update_actions now (λ a. a.id == k && (is_pending a.status || is_running a.status))
      (finish (status_of t) now (some reason))

abbrev pub is_stuck : ℕ → ℕ → ScheduledAction → Bool
is_stuck now mins a = is_running a.status && ltb (a.updated_at + mins * 60000) now

abbrev pub interrupted : String
interrupted = "possibly delivered reminder interrupted while running"

abbrev pub stuck_message : ℕ → ℕ → ScheduledAction → Bool
stuck_message now mins a = is_stuck now mins a && not (is_reminder a.action_kind)

abbrev pub stuck_reminder : ℕ → ℕ → ScheduledAction → Bool
stuck_reminder now mins a = is_stuck now mins a && is_reminder a.action_kind

abbrev pub unclaimed : ScheduledAction → ScheduledAction
unclaimed a = record a { status = ActionStatus.pending; claimed_at = none }

-- The tables, the number of messages that were reset, and the reminders that were failed.
pub reclaim_stuck : ℕ → ℕ → Tables → Tables × ℕ × List ℕ
reclaim_stuck now mins db =
    let reset = update_actions now (stuck_message now mins) unclaimed db in
    (
      update_actions now (stuck_reminder now mins)
          (finish ActionStatus.failed now (some interrupted)) reset,
      length (select (stuck_message now mins) db.actions),
      map action_id (select (stuck_reminder now mins) reset.actions),
    )

pub data CancelResult : Type 0 where
  cancelled already too_late : CancelResult

abbrev pub cancelled_action : ℕ → ScheduledAction → ScheduledAction
cancelled_action now a = record a { status = ActionStatus.cancelled; completed_at = some now }

abbrev pub unsent : ℕ → OutboundRow → Bool
unsent k r = of_action k r && is_approved r.status

abbrev pub cancelled_row : ℕ → OutboundRow → OutboundRow
cancelled_row now r = record r { status = Status.cancelled; updated_at = now }

abbrev recall : ℕ → ℕ → Tables → Tables × CancelResult
recall now k db =
    if length (select (unsent k) db.queue) == 1
    then (
      update_actions now (with_id k) (cancelled_action now)
          (record db { queue = update_where (unsent k) (cancelled_row now) db.queue }),
      cancelled,
    )
    else (db, too_late)

-- The branches of the transaction by the status that its SELECT ... FOR UPDATE found.
abbrev pub cancelled_from : ℕ → ℕ → Tables → ActionStatus → Tables × CancelResult
cancelled_from now k db ActionStatus.pending =
    (update_actions now (with_id k) (cancelled_action now) db, cancelled)
cancelled_from now k db ActionStatus.dispatched = recall now k db
cancelled_from now k db ActionStatus.running = (db, too_late)
cancelled_from now k db _ = (db, already)

abbrev pub cancelled_if :
    ℕ → ℕ → Tables → Option ScheduledAction → Tables × CancelResult × Option String
cancelled_if now k db none = (db, already, none)
cancelled_if now k db (some a) =
    let (db', result) = cancelled_from now k db a.status in (db', result, a.customer_id)

unfoldable pub cancel_scheduled_action : ℕ → ℕ → Tables → Tables × CancelResult × Option String
cancel_scheduled_action now k db = cancelled_if now k db (find_row action_id k db.actions)
