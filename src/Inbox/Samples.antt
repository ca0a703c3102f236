-- ===== src/Inbox/Samples.antt =====
-- Small tables of inbound messages for the tests.
use agent_orchestrator.Base.{◌==◌, if◌then◌else◌, ℕ, ◌+◌, String, Option, some, none, List, [], ◌∷◌}
use agent_orchestrator.Inbox.Rows.{Status, Direction, InboxRow, Db, JsonReader}
use agent_orchestrator.Inbox.Ingestion.{InboundMessage}

abbrev message_key : ℕ → String
message_key k = if k == 1 then "m1" else "m2"

abbrev pub row_of : ℕ → Status → InboxRow
row_of k status = record {
  id = k;
  channel_instance_id = "wa";
  channel_message_id = message_key k;
  channel_thread_id = some "t";
  customer_id = none;
  sender_address = some "507";
  sender_name = none;
  direction = Direction.inbound;
  subject = none;
  body = some "hi";
  raw_metadata = "{}";
  received_at = 1000 + k;
  recipients = none;
  status = status;
  retry_count = 0;
  last_error = none;
  processed_at = none;
  answered_by_inbox_id = none;
  updated_at = 1000;
}

abbrev pub table_of : List InboxRow → Db
table_of rows = record {
  inbox = rows;
  next_id = 10;
  instances = record { id = "wa"; channel_type = "whatsapp"; account_email = none } ∷ [];
}

-- No key is present.
abbrev pub no_json : JsonReader
no_json = record {
  text_at = λ path json. none;
  bool_at = λ path json. none;
  number_at = λ path json. none;
}

abbrev pub message_of : String → Option String → InboundMessage
message_of k body = record {
  instance_id = "wa";
  provider_message_id = k;
  thread_key = some "t";
  sender_address = "507";
  sender_display_name = none;
  recipients = none;
  direction = Direction.inbound;
  sent_at = 1500;
  subject = none;
  body = body;
  raw = "{}";
}
