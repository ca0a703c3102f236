-- ===== src/Outbound/Rows.antt =====
-- The tables that src/outbound/outbound-repo.ts reads and writes. Instants are milliseconds since
-- the epoch; UUIDs and texts are strings; JSON columns are their serialised text.
use agent_orchestrator.Base.{ℕ, String, Bool, true, false, Option, List}

-- agent_outbound_queue.status
pub data Status : Type 0 where
  pending approved sending sent failed cancelled : Status

-- agent_decisions.outcome
pub data Outcome : Type 0 where
  pending accepted modified rejected revised : Outcome

abbrev pub is_open : Status → Bool
is_open Status.pending = true
is_open _ = false

abbrev pub is_approved : Status → Bool
is_approved Status.approved = true
is_approved _ = false

abbrev pub is_sending : Status → Bool
is_sending Status.sending = true
is_sending _ = false

abbrev pub is_sent : Status → Bool
is_sent Status.sent = true
is_sent _ = false

abbrev pub is_failed : Status → Bool
is_failed Status.failed = true
is_failed _ = false

abbrev pub is_unresolved : Outcome → Bool
is_unresolved Outcome.pending = true
is_unresolved _ = false

-- A row of agent_outbound_queue.
pub record OutboundRow : Type 0 where
  pub id : ℕ
  pub customer_id : Option String
  pub channel_instance_id : String
  pub recipient_address : String
  pub thread_key : Option String
  pub in_reply_to : Option String
  pub subject : Option String
  pub body : String
  pub status : Status
  pub is_draft : Bool
  pub approved_at : Option ℕ
  pub approved_by : Option String
  pub send_after : Option ℕ
  pub provider_message_id : Option String
  pub retry_count : ℕ
  pub last_error : Option String
  pub updated_at : ℕ
  pub decision_id : Option ℕ
  pub attachment_ref : Option String
  pub scheduled_action_id : Option ℕ
  pub bypass_send_window : Bool

abbrev pub row_id : OutboundRow → ℕ
row_id r = r.id

-- The human_override objects that the draft operations write.
pub data Override : Type 0 where
  edit : (by edited_body : String) → Override
  reject : (by : String) → Override
  revise : (by instruction : String) → Override
  direct_reply :
      (edited_body : String) (outbound_inbox_id : ℕ) (provider_message_id : String) → Override

-- A row of agent_decisions.
pub record Decision : Type 0 where
  pub id : ℕ
  pub customer_id : Option String
  pub inbox_message_id : Option ℕ
  pub decision_type : String
  pub agent_output : String
  pub verifier_verdict : Option String
  pub human_override : Option Override
  pub outcome : Outcome
  pub resolved_at : Option ℕ
  pub source_outbound_inbox_id : Option ℕ

abbrev pub decision_key : Decision → ℕ
decision_key d = d.id

-- scheduled_actions.status
pub data ActionStatus : Type 0 where
  pending running dispatched completed cancelled missed failed : ActionStatus

-- The columns of scheduled_actions that the queue keeps in step.
pub record Action : Type 0 where
  pub id : ℕ
  pub status : ActionStatus
  pub completed_at : Option ℕ
  pub last_error : Option String

abbrev pub action_key : Action → ℕ
action_key a = a.id

-- The columns of agent_inbox that drafts read.
pub record InboxLink : Type 0 where
  pub id : ℕ
  pub answered_by_inbox_id : Option ℕ
  pub body : Option String
  pub channel_message_id : String

abbrev pub link_key : InboxLink → ℕ
link_key i = i.id

pub record Instance : Type 0 where
  pub id : String
  pub channel_type : String

pub record Customer : Type 0 where
  pub id : String
  pub timezone : Option String
  pub faith : Option String

pub record Contact : Type 0 where
  pub channel_type : String
  pub address : String
  pub is_group : Bool

-- The tables together. `next_id` and `next_decision` are the BIGSERIAL sequences.
pub record Db : Type 0 where
  pub queue : List OutboundRow
  pub decisions : List Decision
  pub actions : List Action
  pub inbox : List InboxLink
  pub instances : List Instance
  pub customers : List Customer
  pub contacts : List Contact
  pub next_id : ℕ
  pub next_decision : ℕ
