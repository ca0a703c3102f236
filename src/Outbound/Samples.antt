-- ===== src/Outbound/Samples.antt =====
-- Small tables and a clock on which the witnesses run.
use agent_orchestrator.Base.{
  ℕ, ◌+◌, ◌*◌, ◌/◌, String, true, false, Option, some, none, List, [], ◌∷◌, get_or_else,
}
use agent_orchestrator.Outbound.Rows.{Status, Outcome, OutboundRow, Decision, Db}
use agent_orchestrator.Outbound.Queue.{ClaimedOutbound}
use agent_orchestrator.Outbound.SendWindow.{Luxon, BusinessHour, Holiday}
use agent_orchestrator.Outbound.Drainer.{DrainerConfig, Adapter, Clock, World}

abbrev pub row_in : ℕ → Status → OutboundRow
row_in k status = record {
  id = k;
  customer_id = none;
  channel_instance_id = "wa";
  recipient_address = "507";
  thread_key = none;
  in_reply_to = none;
  subject = none;
  body = "hello";
  status = status;
  is_draft = false;
  approved_at = some 1;
  approved_by = some "admin";
  send_after = none;
  provider_message_id = none;
  retry_count = 0;
  last_error = none;
  updated_at = 1;
  decision_id = none;
  attachment_ref = none;
  scheduled_action_id = none;
  bypass_send_window = false;
}

-- An open draft that is linked to decision 7.
abbrev pub draft_in : ℕ → OutboundRow
draft_in k = record (row_in k Status.pending) { is_draft = true; decision_id = some 7 }

abbrev pub open_decision : Decision
open_decision = record {
  id = 7;
  customer_id = none;
  inbox_message_id = some 3;
  decision_type = "draft_reply";
  agent_output = "{}";
  verifier_verdict = none;
  human_override = none;
  outcome = Outcome.pending;
  resolved_at = none;
  source_outbound_inbox_id = none;
}

abbrev pub db_of : List OutboundRow → Db
db_of rows = record {
  queue = rows;
  decisions = open_decision ∷ [];
  actions = [];
  inbox =
      record { id = 3; answered_by_inbox_id = none; body = some "hi"; channel_message_id = "m3" }
      ∷ [];
  instances = record { id = "wa"; channel_type = "whatsapp" } ∷ [];
  customers = [];
  contacts = [];
  next_id = 3;
  next_decision = 8;
}

abbrev pub claimed_in : ℕ → ClaimedOutbound
claimed_in k = record {
  id = k;
  customer_id = none;
  channel_instance_id = "wa";
  channel_type = "whatsapp";
  recipient_address = "507";
  thread_key = none;
  in_reply_to = none;
  subject = none;
  body = "hello";
  retry_count = 0;
  timezone = none;
  faith = none;
  is_group = none;
  attachment_ref = none;
  scheduled_action_id = none;
  bypass_send_window = false;
}

abbrev pub world_of : Db → World
world_of db = record { db = db; alerts = []; dispatched = []; alerted_pauses = [] }

-- UTC, with instants as minutes and day 0 a Sunday.
abbrev pub minutes_clock : Luxon
minutes_clock = record {
  DateTime = ℕ;
  from_js_date = λ t z. t / 60000;
  is_valid_zone = λ z. true;
  weekday = λ d. d / 1440 + 7;
  to_iso_date = λ d. some "day";
  set_time = λ d h m. d / 1440 * 1440 + get_or_else h 0 * 60 + get_or_else m 0;
  plus_days = λ d n. d + n * 1440;
  start_of_day = λ d. d / 1440 * 1440;
  to_millis = λ d. some (d * 60000);
}

-- Sunday, nine to five.
abbrev pub sunday : List BusinessHour
sunday =
    record { day_of_week = 0; start_time = "09:00"; end_time = "17:00"; is_working_day = true } ∷ []

abbrev pub no_holidays : List Holiday
no_holidays = []

abbrev pub settings : DrainerConfig
settings = record {
  rate_per_hour = 10;
  min_gap_ms = 1000;
  max_recipient_failures = 3;
  failure_window_min = 60;
  default_tz = "utc";
  stuck_minutes = 15;
  email_enabled = false;
}

abbrev pub registry_of : String → Option Adapter
registry_of k = some (record { instance_id = "wa"; channel_type = "whatsapp"; can_send = true })

-- Noon on Sunday.
abbrev pub noon : Clock
noon = record { row_at = 43200000; lease_at = 43200001; done_at = 43200002 }
