-- ===== src/Inbox/Ingestion.antt =====
-- src/inbox/ingestion.ts: the upsert of one inbound message.
pub mod Laws
mod Tests
use text.Mathlib.Text.{◌==◌ as str_eq}
use agent_orchestrator.Base.{
  ℕ, ◌+◌, String, Bool, true, false, ◌&&◌, not, Option, some, none, List, [], ◌∷◌, ◌++◌,
  if◌then◌else◌, select, first, update_where, is_some,
}
use agent_orchestrator.Inbox.Rows.{Status, Direction, Recipients, InboxRow, Db}

pub record InboundMessage : Type 0 where
  pub instance_id : String
  pub provider_message_id : String
  pub thread_key : Option String
  pub sender_address : String
  pub sender_display_name : Option String
  pub recipients : Option Recipients
  pub direction : Direction
  pub sent_at : ℕ
  pub subject : Option String
  pub body : Option String
  pub raw : String

pub record IngestResult : Type 0 where
  pub id : ℕ
  pub created : Bool

abbrev pub initial_status : Direction → Status
initial_status Direction.outbound = Status.skipped
initial_status Direction.inbound = Status.pending

abbrev pub new_row : ℕ → ℕ → InboundMessage → InboxRow
new_row now k msg = record {
  id = k;
  channel_instance_id = msg.instance_id;
  channel_message_id = msg.provider_message_id;
  channel_thread_id = msg.thread_key;
  customer_id = none;
  sender_address = some msg.sender_address;
  sender_name = msg.sender_display_name;
  direction = msg.direction;
  subject = msg.subject;
  body = msg.body;
  raw_metadata = msg.raw;
  received_at = msg.sent_at;
  recipients = msg.recipients;
  status = initial_status msg.direction;
  retry_count = 0;
  last_error = none;
  processed_at = none;
  answered_by_inbox_id = none;
  updated_at = now;
}

-- The unique key (channel_instance_id, channel_message_id).
abbrev pub same_message : InboundMessage → InboxRow → Bool
same_message msg r =
    str_eq r.channel_instance_id msg.instance_id
    && str_eq r.channel_message_id msg.provider_message_id

abbrev pub find_message : InboundMessage → Db → Option InboxRow
find_message msg db = first (select (same_message msg) db.inbox)

-- DO UPDATE ... WHERE agent_inbox.body IS NULL
abbrev pub enriches : InboundMessage → InboxRow → Bool
enriches msg r = same_message msg r && not (is_some r.body)

abbrev pub enriched : ℕ → InboundMessage → InboxRow → InboxRow
enriched now msg r = record r { body = msg.body; raw_metadata = msg.raw; updated_at = now }

-- The upsert's answer once the row under the key is known. `stale` says that another writer's
-- row was committed after the statement's snapshot, which hides it from the fallback SELECT.
abbrev upsert_found : ℕ → Bool → InboundMessage → Db → Option InboxRow → Db × Option IngestResult
upsert_found now stale msg db none = (
  record db { inbox = db.inbox ++ new_row now db.next_id msg ∷ []; next_id = db.next_id + 1 },
  some (record { id = db.next_id; created = true }),
)
upsert_found now stale msg db (some r) =
    if is_some r.body
    then (db, (if stale then none else some (record { id = r.id; created = false })))
    else (
      record db { inbox = update_where (enriches msg) (enriched now msg) db.inbox },
      some (record { id = r.id; created = false }),
    )

pub upsert : ℕ → Bool → InboundMessage → Db → Db × Option IngestResult
upsert now stale msg db = upsert_found now stale msg db (find_message msg db)

-- `none` is the Error of a row that is missing after the upsert.
abbrev reselected : Option InboxRow → Option IngestResult
reselected none = none
reselected (some r) = some (record { id = r.id; created = false })

abbrev answered : InboundMessage → Db → Option IngestResult → Option IngestResult
answered msg db none = reselected (find_message msg db)
answered msg db (some result) = some result

pub ingest_inbound : ℕ → Bool → InboundMessage → Db → Db × Option IngestResult
ingest_inbound now stale msg db =
    let (db', result) = upsert now stale msg db in (db', answered msg db' result)
