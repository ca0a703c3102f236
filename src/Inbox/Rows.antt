-- ===== src/Inbox/Rows.antt =====
-- The tables that src/inbox/inbox-repo.ts and src/inbox/ingestion.ts read and write
-- (src/db/migrations/004_agent_inbox.sql and its later columns).
use agent_orchestrator.Base.{ℕ, String, Bool, true, false, Option, List}

pub data Status : Type 0 where
  pending processing processed failed skipped : Status

abbrev pub is_pending : Status → Bool
is_pending pending = true
is_pending _ = false

abbrev pub is_processing : Status → Bool
is_processing processing = true
is_processing _ = false

pub data Direction : Type 0 where
  inbound outbound : Direction

abbrev pub is_inbound : Direction → Bool
is_inbound inbound = true
is_inbound outbound = false

pub record Recipients : Type 0 where
  pub to : List String
  pub cc : List String

-- agent_inbox; `raw_metadata` is the text of the JSON value.
pub record InboxRow : Type 0 where
  pub id : ℕ
  pub channel_instance_id : String
  pub channel_message_id : String
  pub channel_thread_id : Option String
  pub customer_id : Option String
  pub sender_address : Option String
  pub sender_name : Option String
  pub direction : Direction
  pub subject : Option String
  pub body : Option String
  pub raw_metadata : String
  pub received_at : ℕ
  pub recipients : Option Recipients
  pub status : Status
  pub retry_count : ℕ
  pub last_error : Option String
  pub processed_at : Option ℕ
  pub answered_by_inbox_id : Option ℕ
  pub updated_at : ℕ

abbrev pub row_id : InboxRow → ℕ
row_id r = r.id

-- channel_instances, as far as the claim joins it.
pub record ChannelInstance : Type 0 where
  pub id : String
  pub channel_type : String
  pub account_email : Option String

pub record Db : Type 0 where
  pub inbox : List InboxRow
  pub next_id : ℕ
  pub instances : List ChannelInstance

-- The operators -> and ->> of PostgreSQL along a path, with the casts to boolean and number.
pub record JsonReader : Type 0 where
  pub text_at : List String → String → Option String
  pub bool_at : List String → String → Option Bool
  pub number_at : List String → String → Option ℕ
