-- ===== src/Inbox/Queue.antt =====
-- src/inbox/inbox-repo.ts: the claim, the poison pill, the marks, and the two reads of a thread.
-- Every UPDATE also sets `updated_at`, by the table's trigger.
pub mod Claim
pub mod Threads
mod Tests
use text.Mathlib.Text.{◌==◌ as str_eq}
use agent_orchestrator.Base.{
  ℕ, ◌+◌, ◌*◌, String, Bool, true, false, ◌&&◌, ◌||◌, not, Option, some, none, List, [], ◌∷◌, ltb,
  leb, ◌==◌, if◌then◌else◌, select, take, map, member, first, update_where, find_row, is_some,
}
use agent_orchestrator.Inbox.Rows.{
  Status, is_pending, is_processing, Direction, is_inbound, Recipients, InboxRow, row_id,
  ChannelInstance, Db, JsonReader,
}

-- MAX_ATTEMPTS, STUCK and GRACE
abbrev pub max_attempts : ℕ
max_attempts = 3

abbrev pub stuck : ℕ
stuck = 10 * 60000

abbrev pub grace : ℕ
grace = 10 * 60000

abbrev pub stamp : ℕ → (InboxRow → InboxRow) → InboxRow → InboxRow
stamp now f r = record (f r) { updated_at = now }

abbrev pub update_inbox : ℕ → (InboxRow → Bool) → (InboxRow → InboxRow) → Db → Db
update_inbox now p f db = record db { inbox = update_where p (stamp now f) db.inbox }

pub record ClaimedInbox : Type 0 where
  pub id : ℕ
  pub channel_instance_id : String
  pub channel_type : String
  pub channel_message_id : String
  pub message_id_header : Option String
  pub channel_thread_id : Option String
  pub sender_address : Option String
  pub sender_name : Option String
  pub subject : Option String
  pub body : Option String
  pub received_at : ℕ
  pub recipients : Option Recipients
  pub account_email : Option String
  pub ticket_number : Option String
  pub is_group : Option Bool
  pub chat_muted : Option Bool
  pub mentions_me : Option Bool
  pub media_type : Option String
  pub media_mimetype : Option String
  pub media_status : Option String
  pub media_filesize : Option ℕ
  pub answered_by_inbox_id : Option ℕ

abbrev instance_of : String → List ChannelInstance → Option ChannelInstance
instance_of k cs = first (select (λ c. str_eq c.id k) cs)

abbrev claimed_row : JsonReader → ChannelInstance → InboxRow → ClaimedInbox
claimed_row json ci r = record {
  id = r.id;
  channel_instance_id = r.channel_instance_id;
  channel_type = ci.channel_type;
  channel_message_id = r.channel_message_id;
  message_id_header = json.text_at ("messageIdHeader" ∷ []) r.raw_metadata;
  channel_thread_id = r.channel_thread_id;
  sender_address = r.sender_address;
  sender_name = r.sender_name;
  subject = r.subject;
  body = r.body;
  received_at = r.received_at;
  recipients = r.recipients;
  account_email = ci.account_email;
  ticket_number = json.text_at ("ticketNumber" ∷ []) r.raw_metadata;
  is_group = json.bool_at ("metadata" ∷ "isGroup" ∷ []) r.raw_metadata;
  chat_muted = json.bool_at ("metadata" ∷ "chatMuted" ∷ []) r.raw_metadata;
  mentions_me = json.bool_at ("metadata" ∷ "mentionsMe" ∷ []) r.raw_metadata;
  media_type = json.text_at ("media" ∷ "mediaType" ∷ []) r.raw_metadata;
  media_mimetype = json.text_at ("media" ∷ "mimetype" ∷ []) r.raw_metadata;
  media_status = json.text_at ("media" ∷ "status" ∷ []) r.raw_metadata;
  media_filesize = json.number_at ("media" ∷ "filesize" ∷ []) r.raw_metadata;
  answered_by_inbox_id = r.answered_by_inbox_id;
}

-- JOIN channel_instances
pub joined : JsonReader → List ChannelInstance → List InboxRow → List ClaimedInbox
joined json cs [] = []
joined json cs (r ∷ rs) =
    let rest = joined json cs rs in
    elim (instance_of r.channel_instance_id cs) [
      | none ↦ rest
      | some ci ↦ claimed_row json ci r ∷ rest
    ]

-- The inner SELECT's WHERE; `locked` is what SKIP LOCKED passes over.
pub is_claimable : ℕ → (ℕ → Bool) → InboxRow → Bool
is_claimable now locked r =
    is_inbound r.direction
    && ltb r.retry_count max_attempts
    && (is_pending r.status || (is_processing r.status && ltb (r.updated_at + stuck) now))
    && (is_some r.body || ltb (r.received_at + grace) now)
    && not (locked r.id)

abbrev pub claimed : InboxRow → InboxRow
claimed r = record r { status = Status.processing; retry_count = r.retry_count + 1 }

abbrev pub chosen : ℕ → ℕ → (ℕ → Bool) → Db → List InboxRow
chosen limit now locked db = take limit (select (is_claimable now locked) db.inbox)

unfoldable pub claim_batch : JsonReader → ℕ → ℕ → (ℕ → Bool) → Db → Db × List ClaimedInbox
claim_batch json limit now locked db =
    let rows = chosen limit now locked db in
    let ids = map row_id rows in
    (
      update_inbox now (λ r. member r.id ids) claimed db,
      joined json db.instances (map (stamp now claimed) rows),
    )

abbrev pub is_poison : ℕ → InboxRow → Bool
is_poison now r =
    is_processing r.status && leb max_attempts r.retry_count && ltb (r.updated_at + stuck) now

abbrev pub poisoned : InboxRow → InboxRow
poisoned r = record r { status = Status.failed; last_error = some "exceeded max triage attempts" }

unfoldable pub fail_stuck : ℕ → Db → Db × List ℕ
fail_stuck now db =
    (update_inbox now (is_poison now) poisoned db, map row_id (select (is_poison now) db.inbox))

abbrev pub with_id : ℕ → InboxRow → Bool
with_id k r = r.id == k

unfoldable pub mark_processed : ℕ → ℕ → Db → Db
mark_processed now k =
    update_inbox now (with_id k)
      (λ r. record r { status = Status.processed; processed_at = some now })

unfoldable pub mark_skipped : ℕ → ℕ → String → Db → Db
mark_skipped now k reason =
    update_inbox now (with_id k)
      (λ r. record r { status = Status.skipped; last_error = some reason; processed_at = some now })

unfoldable pub set_inbox_customer : ℕ → ℕ → String → Db → Db
set_inbox_customer now k customer =
    update_inbox now (with_id k) (λ r. record r { customer_id = some customer })

abbrev subject_body : Option InboxRow → Option (Option String × Option String)
subject_body none = none
subject_body (some r) = some (r.subject, r.body)

pub get_inbox_subject_body : ℕ → Db → Option (Option String × Option String)
get_inbox_subject_body k db = subject_body (find_row row_id k db.inbox)
