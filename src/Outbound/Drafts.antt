-- ===== src/Outbound/Drafts.antt =====
-- The founder's side of src/outbound/outbound-repo.ts: enqueueing, and the guarded operations on
-- drafts with the decision that each of them resolves (src/decisions/decisions.ts).
-- A transaction works on its own copy of the tables: COMMIT returns it, ROLLBACK drops it.
pub mod Effects
pub mod Decided
pub mod Revised
pub mod Reads
mod Tests
use agent_orchestrator.Base.{
  ℕ, ◌+◌, String, str_eq, Bool, true, false, ◌&&◌, Option, some, none, [], ◌∷◌, ◌++◌, ◌==◌,
  if◌then◌else◌, get_or_else, is_some, update_where, find_row, select, first,
}
use Prim.Native.Char.{Char, code}
use agent_orchestrator.Base.{leb}
use agent_orchestrator.Outbound.Rows.{
  Status, Outcome, OutboundRow, Decision, decision_key, Override, edit, reject, revise,
  direct_reply, InboxLink, link_key, Db, is_open, is_unresolved,
}
use agent_orchestrator.Outbound.Queue.{update_queue, with_id}

-- What a transaction gives: its result and the tables, or an error after which the tables are as
-- they were.
pub data Tx {ℓ} (A : Type ℓ) : Type ℓ where
  committed : A → Db → Tx A
  rolled_back : Tx A  -- ROLLBACK and `null`
  thrown : Tx A  -- ROLLBACK and rethrow

-- The tables after a transaction that began with `db`.
abbrev pub tables_after {ℓ} : {A : Type ℓ} → Db → Tx A → Db
tables_after db (committed a db') = db'
tables_after db rolled_back = db
tables_after db thrown = db

-- `String.prototype.trim` and `toLowerCase`.
pub record TextOps : Type 0 where
  pub trim : String → String
  pub to_lower_case : String → String

abbrev is_digit : Char → Bool
is_digit c = leb b'0' (code c) && leb (code c) b'9'

-- `value.replace(/\D/g, '')`
pub normalize_whatsapp_address : String → String
normalize_whatsapp_address String.[] = String.[]
normalize_whatsapp_address (String.◌∷◌ c s) =
    let rest = normalize_whatsapp_address s in if is_digit c then String.◌∷◌ c rest else rest

pub normalize_email_address : TextOps → String → String
normalize_email_address ops email = ops.to_lower_case (ops.trim email)

pub normalize_recipient : TextOps → String → String → String
normalize_recipient ops channel address =
    if str_eq channel "whatsapp"
    then normalize_whatsapp_address address
    else (if str_eq channel "email" then normalize_email_address ops address else ops.trim address)

pub record EnqueueInput : Type 0 where
  pub channel_instance_id : String
  pub channel_type : String
  pub recipient_address : String
  pub body : String
  pub thread_key : Option String
  pub subject : Option String
  pub in_reply_to : Option String
  pub attachment_ref : Option String
  pub customer_id : Option String

-- The columns that both inserts share; the rest are the table's defaults.
abbrev new_row : TextOps → ℕ → ℕ → EnqueueInput → OutboundRow
new_row ops now k input = record {
  id = k;
  customer_id = input.customer_id;
  channel_instance_id = input.channel_instance_id;
  recipient_address = normalize_recipient ops input.channel_type input.recipient_address;
  thread_key = input.thread_key;
  in_reply_to = input.in_reply_to;
  subject = input.subject;
  body = input.body;
  status = Status.pending;
  is_draft = true;
  approved_at = none;
  approved_by = none;
  send_after = none;
  provider_message_id = none;
  retry_count = 0;
  last_error = none;
  updated_at = now;
  decision_id = none;
  attachment_ref = none;
  scheduled_action_id = none;
  bypass_send_window = false;
}

abbrev insert_row : OutboundRow → Db → Db
insert_row r db = record db { queue = db.queue ++ r ∷ []; next_id = db.next_id + 1 }

pub enqueue_outbound : TextOps → ℕ → EnqueueInput → Db → Db × ℕ
enqueue_outbound ops now input db =
    let r = new_row ops now db.next_id input in
    (
      insert_row
          (record r {
            attachment_ref = input.attachment_ref;
            status = Status.approved;
            is_draft = false;
            approved_by = some "admin";
            approved_at = some now;
          })
          db,
      db.next_id,
    )

abbrev pub draft_reply : String
draft_reply = "draft_reply"

-- The inbound message that the founder has already answered directly, if the decision has one:
-- decision, its inbound message, and the outbound message that answered it.
pub answered_directly : Db → ℕ → Option InboxLink
answered_directly db k = elim (find_row decision_key k db.decisions) [
  | none ↦ none
  | some d ↦
      if str_eq d.decision_type draft_reply
      then elim d.inbox_message_id [
        | none ↦ none
        | some m ↦ elim (find_row link_key m db.inbox) [
          | none ↦ none
          | some i ↦ elim i.answered_by_inbox_id [
            | none ↦ none
            | some o ↦ find_row link_key o db.inbox
          ]
        ]
      ]
      else none
]

-- `UPDATE agent_decisions ... WHERE id = $1 AND outcome = 'pending'`
abbrev pub open_with : ℕ → Decision → Bool
open_with k d = d.id == k && is_unresolved d.outcome

abbrev pub update_decision : ℕ → (Decision → Decision) → Db → Db
update_decision k f db = record db { decisions = update_where (open_with k) f db.decisions }

pub resolve_draft_decision : ℕ → ℕ → Outcome → Option Override → Db → Db
resolve_draft_decision now k outcome override =
    update_decision k
      (λ d. record d { outcome = outcome; human_override = override; resolved_at = some now })

abbrev resolve_direct : TextOps → ℕ → ℕ → InboxLink → Db → Db
resolve_direct ops now k o = update_decision k (λ d. record d {
  outcome = Outcome.modified;
  resolved_at = some now;
  source_outbound_inbox_id = some o.id;
  human_override = some (
      direct_reply (get_or_else (elim o.body [ none ↦ none | some b ↦ some (ops.trim b) ]) "") o.id
        o.channel_message_id);
})

abbrev resolve_superseded : TextOps → ℕ → ℕ → Option InboxLink → Db → Db
resolve_superseded ops now k none db = db
resolve_superseded ops now k (some o) db = resolve_direct ops now k o db

abbrev draft_row : TextOps → ℕ → EnqueueInput → ℕ → Db → OutboundRow
draft_row ops now input decision db = record (new_row ops now db.next_id input) {
  decision_id = some decision;
  status = if is_some (answered_directly db decision) then Status.cancelled else Status.pending;
}

abbrev enqueue_checked : TextOps → ℕ → EnqueueInput → ℕ → Db → Option Decision → Tx ℕ
enqueue_checked ops now input decision db none = thrown
enqueue_checked ops now input decision db (some d) = committed db.next_id (
    resolve_superseded ops now decision (answered_directly db decision)
      (insert_row (draft_row ops now input decision db) db))

-- enqueueDraft. The insert throws where the decision does not exist (the foreign key).
pub enqueue_draft : TextOps → ℕ → EnqueueInput → ℕ → Db → Tx ℕ
enqueue_draft ops now input decision db =
    enqueue_checked ops now input decision db (find_row decision_key decision db.decisions)

pub record DraftResolution : Type 0 where
  pub queue_id : ℕ
  pub decision_id : Option ℕ
  pub customer_id : Option String

-- `WHERE id = $1 AND is_draft = true AND status = 'pending'`
abbrev pub open_draft : ℕ → OutboundRow → Bool
open_draft k r = r.id == k && r.is_draft && is_open r.status

abbrev pub find_draft : ℕ → Db → Option OutboundRow
find_draft k db = first (select (open_draft k) db.queue)

abbrev pub resolution : OutboundRow → DraftResolution
resolution r = record { queue_id = r.id; decision_id = r.decision_id; customer_id = r.customer_id }

-- `if (row.decision_id !== null) await resolveDraftDecisionTx(...)`
abbrev resolve_linked : ℕ → Option ℕ → Outcome → Option Override → Db → Db
resolve_linked now none outcome override db = db
resolve_linked now (some d) outcome override db = resolve_draft_decision now d outcome override db

-- The transaction, by what the guarded UPDATE found.
abbrev flip_found :
    ℕ
    → ℕ
    → (OutboundRow → OutboundRow)
    → Outcome
    → Option Override
    → Db
    → Option OutboundRow
    → Tx DraftResolution
flip_found now k change outcome override db none = rolled_back
flip_found now k change outcome override db (some r) =
    committed (resolution r) (
      resolve_linked now r.decision_id outcome override (update_queue now (open_draft k) change db))

pub flip_draft_and_resolve :
    ℕ → ℕ → (OutboundRow → OutboundRow) → Outcome → Option Override → Db → Tx DraftResolution
flip_draft_and_resolve now k change outcome override db =
    flip_found now k change outcome override db (find_draft k db)

abbrev pub approve_row : ℕ → String → OutboundRow → OutboundRow
approve_row now by r = record r {
  status = Status.approved;
  is_draft = false;
  approved_by = some by;
  approved_at = some now;
}

pub approve_draft : ℕ → ℕ → String → Db → Tx DraftResolution
approve_draft now k by = flip_draft_and_resolve now k (approve_row now by) Outcome.accepted none

pub replace_draft_body_and_approve : ℕ → ℕ → String → String → Db → Tx DraftResolution
replace_draft_body_and_approve now k body by =
    flip_draft_and_resolve now k (λ r. record (approve_row now by r) { body = body })
      Outcome.modified (some (edit by body))

pub cancel_draft : ℕ → ℕ → String → Db → Tx DraftResolution
cancel_draft now k by =
    flip_draft_and_resolve now k (λ r. record r { status = Status.cancelled }) Outcome.rejected
      (some (reject by))

pub get_draft_for_edit : ℕ → Db → Option DraftResolution
get_draft_for_edit k db = elim (find_draft k db) [ none ↦ none | some r ↦ some (resolution r) ]

pub record RevisedDraft : Type 0 where
  pub queue_id : ℕ
  pub old_decision_id : Option ℕ
  pub new_decision_id : Option ℕ
  pub customer_id : Option String

-- insertRevisedDraftDecisionTx: a copy of the row, with nothing to copy it throws.
abbrev revised_decision : Db → Decision → String → Option String → Decision
revised_decision db d output verdict = record {
  id = db.next_decision;
  customer_id = d.customer_id;
  inbox_message_id = d.inbox_message_id;
  decision_type = draft_reply;
  agent_output = output;
  verifier_verdict = verdict;
  human_override = none;
  outcome = Outcome.pending;
  resolved_at = none;
  source_outbound_inbox_id = none;
}

pub insert_revised_draft_decision : ℕ → String → Option String → Db → Option (Db × ℕ)
insert_revised_draft_decision source output verdict db =
    elim (find_row decision_key source db.decisions) [
      | none ↦ none
      | some d ↦ some (
        record db {
          decisions = db.decisions ++ revised_decision db d output verdict ∷ [];
          next_decision = db.next_decision + 1;
        },
        db.next_decision,
      )
    ]

-- The re-pointing of the queue row, after the new decision is there.
abbrev repoint : ℕ → OutboundRow → ℕ → Option (Db × ℕ) → Tx RevisedDraft
repoint now r old none = thrown
repoint now r old (some (db, k)) =
    committed
      (record {
        queue_id = r.id;
        old_decision_id = some old;
        new_decision_id = some k;
        customer_id = r.customer_id;
      })
      (update_queue now (with_id r.id) (λ q. record q { decision_id = some k }) db)

-- The decisions' part of a revision, after the body is rewritten.
abbrev revise_linked :
    ℕ
    → OutboundRow
    → String
    → (instruction by : String) → Option String
    → Db
    → Option ℕ
    → Tx RevisedDraft
revise_linked now r output instruction by verdict edited none =
    committed
      (record {
        queue_id = r.id;
        old_decision_id = none;
        new_decision_id = none;
        customer_id = r.customer_id;
      })
      edited
revise_linked now r output instruction by verdict edited (some d) = repoint now r d (
    insert_revised_draft_decision d output verdict
      (resolve_draft_decision now d Outcome.revised (some (revise by instruction)) edited))

abbrev revise_found :
    ℕ
    → ℕ
    → String
    → String
    → (instruction by : String) → Option String
    → Db
    → Option OutboundRow
    → Tx RevisedDraft
revise_found now k new_body output instruction by verdict db none = rolled_back
revise_found now k new_body output instruction by verdict db (some r) =
    revise_linked now r output instruction by verdict
      (update_queue now (open_draft k) (λ q. record q { body = new_body }) db) r.decision_id

pub revise_draft :
    ℕ → ℕ → String → String → (instruction by : String) → Option String → Db → Tx RevisedDraft
revise_draft now k new_body output instruction by verdict db =
    revise_found now k new_body output instruction by verdict db (find_draft k db)
