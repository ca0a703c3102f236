-- ===== src/Outbound/Queue.antt =====
-- The drainer's side of src/outbound/outbound-repo.ts: claim, terminal updates, retries and the
-- counts that pace sends. `now` is the transaction's now().
pub mod Effects
pub mod Claim
pub mod Breaker
mod Tests
use agent_orchestrator.Base.{
  ℕ, ◌+◌, ◌-◌, ◌*◌, String, str_eq, Bool, true, false, not, ◌&&◌, ◌||◌, Option, some, none, List,
  [], ◌∷◌, map, length, take, select, any, first, member, ltb, leb, ◌==◌, if◌then◌else◌,
  get_or_else, is_some, has_id, update_where, find_row, max, min,
}
use Prim.Native.String
use text.Mathlib.Text.{starts_with}
use agent_orchestrator.Outbound.Rows.{
  Status, OutboundRow, row_id, Action, ActionStatus, Instance, Customer, Contact, Db, is_approved,
  is_sending, is_sent, is_failed,
}

-- UPDATE agent_outbound_queue; the set_updated_at trigger stamps the rows that it rewrites.
abbrev pub stamp : ℕ → (OutboundRow → OutboundRow) → OutboundRow → OutboundRow
stamp now f r = record (f r) { updated_at = now }

abbrev pub update_queue : ℕ → (OutboundRow → Bool) → (OutboundRow → OutboundRow) → Db → Db
update_queue now p f db = record db { queue = update_where p (stamp now f) db.queue }

-- `WHERE id = $1`
abbrev pub with_id : ℕ → OutboundRow → Bool
with_id k r = r.id == k

abbrev pub past : ℕ → Option ℕ → Bool
past now none = true
past now (some t) = leb t now

-- `channel_instance_id IN (SELECT id FROM channel_instances WHERE channel_type = ANY($2))`
abbrev pub is_armed : List Instance → List String → OutboundRow → Bool
is_armed instances types r =
    any (λ i. str_eq i.id r.channel_instance_id && any (λ t. str_eq i.channel_type t) types)
      instances

-- The WHERE clause of the claim; rows that another transaction has locked are skipped.
pub is_due : List Instance → List String → ℕ → (ℕ → Bool) → OutboundRow → Bool
is_due instances types now locked r =
    is_approved r.status
    && not r.is_draft
    && past now r.send_after
    && is_armed instances types r
    && not (locked r.id)

pub record ClaimedOutbound : Type 0 where
  pub id : ℕ
  pub customer_id : Option String
  pub channel_instance_id : String
  pub channel_type : String
  pub recipient_address : String
  pub thread_key : Option String
  pub in_reply_to : Option String
  pub subject : Option String
  pub body : String
  pub retry_count : ℕ
  pub timezone : Option String
  pub faith : Option String
  pub is_group : Option Bool
  pub attachment_ref : Option String
  pub scheduled_action_id : Option ℕ
  pub bypass_send_window : Bool

-- The first row of a join; the joined keys are unique.
abbrev pub join {ℓ κ} : {A : Type ℓ} {B : Type κ} → (A → Bool) → (A → Option B) → List A → Option B
join p f [] = none
join p f (x ∷ xs) = let rest = join p f xs in if p x then f x else rest

abbrev channel_type_of : List Instance → String → Option String
channel_type_of instances k = join (λ i. str_eq i.id k) (λ i. some i.channel_type) instances

abbrev for_customer {ℓ} :
    {B : Type ℓ} → (Customer → Option B) → List Customer → Option String → Option B
for_customer f customers none = none
for_customer f customers (some k) = join (λ c. str_eq c.id k) f customers

-- The SELECT over the claimed rows. The contact is that of the send target, thread before recipient.
joined : Db → String → OutboundRow → ClaimedOutbound
joined db channel r = record {
  id = r.id;
  customer_id = r.customer_id;
  channel_instance_id = r.channel_instance_id;
  channel_type = channel;
  recipient_address = r.recipient_address;
  thread_key = r.thread_key;
  in_reply_to = r.in_reply_to;
  subject = r.subject;
  body = r.body;
  retry_count = r.retry_count;
  timezone = for_customer (λ c. c.timezone) db.customers r.customer_id;
  faith = for_customer (λ c. c.faith) db.customers r.customer_id;
  is_group =
      join
        (λ c.
          str_eq c.channel_type channel
          && str_eq c.address (get_or_else r.thread_key r.recipient_address))
        (λ c. some c.is_group) db.contacts;
  attachment_ref = r.attachment_ref;
  scheduled_action_id = r.scheduled_action_id;
  bypass_send_window = r.bypass_send_window;
}

-- `JOIN channel_instances`: a row without its instance is dropped.
joined_rows : Db → List OutboundRow → List ClaimedOutbound
joined_rows db [] = []
joined_rows db (r ∷ rs) =
    let rest = joined_rows db rs in
    elim (channel_type_of db.instances r.channel_instance_id) [
      | none ↦ rest
      | some channel ↦ joined db channel r ∷ rest
    ]

-- The inner SELECT ... ORDER BY id LIMIT.
pub chosen : ℕ → List String → ℕ → (ℕ → Bool) → Db → List OutboundRow
chosen limit types now locked db =
    take limit (select (is_due db.instances types now locked) db.queue)

abbrev pub to_sending : OutboundRow → OutboundRow
to_sending r = record r { status = Status.sending }

abbrev is_empty {ℓ} : {A : Type ℓ} → List A → Bool
is_empty [] = true
is_empty (x ∷ xs) = false

-- `id` is the primary key, so the updated rows are those that the inner SELECT chose.
pub claim_due : ℕ → List String → ℕ → (ℕ → Bool) → Db → Db × List ClaimedOutbound
claim_due limit types now locked db =
    if is_empty types
    then (db, [])
    else (let rows = chosen limit types now locked db in
        let ids = map row_id rows in
        (
          update_queue now (λ r. member r.id ids) to_sending db,
          joined_rows db (map (stamp now to_sending) rows),
        ))

abbrev pub possibly_delivered_prefix : String
possibly_delivered_prefix = "possibly-delivered: "

abbrev pub stuck_error : String
stuck_error = "possibly-delivered: stuck in sending — manual review"

abbrev minutes : ℕ → ℕ
minutes n = n * 60000

abbrev pub is_stuck : ℕ → ℕ → OutboundRow → Bool
is_stuck now mins r = is_sending r.status && ltb (r.updated_at + minutes mins) now

abbrev pub fail_with : String → OutboundRow → OutboundRow
fail_with reason r = record r { status = Status.failed; last_error = some reason }

-- UPDATE scheduled_actions ... WHERE id IN / = (SELECT scheduled_action_id ...)
abbrev update_actions : (ℕ → Bool) → (Action → Action) → Db → Db
update_actions p f db = record db { actions = update_where (λ a. p a.id) f db.actions }

abbrev fail_action : ℕ → String → Action → Action
fail_action now reason a = record a {
  status = ActionStatus.failed;
  completed_at = some now;
  last_error = some reason;
}

abbrev complete_action : ℕ → Action → Action
complete_action now a = record a {
  status = ActionStatus.completed;
  completed_at = some now;
  last_error = none;
}

pub reclaim_stuck : ℕ → ℕ → Db → Db × List ℕ
reclaim_stuck now mins db =
    let stuck = select (is_stuck now mins) db.queue in
    let db' = update_queue now (is_stuck now mins) (fail_with stuck_error) db in
    (
      update_actions (λ k. any (λ r. has_id r.scheduled_action_id k) stuck)
          (fail_action now stuck_error) db',
      map row_id stuck,
    )

-- The action of the row that an UPDATE by id returned.
abbrev pub action_of : Db → ℕ → ℕ → Bool
action_of db k a = elim (find_row row_id k db.queue) [
  | none ↦ false
  | some r ↦ has_id r.scheduled_action_id a
]

pub mark_sent : ℕ → ℕ → String → Db → Db
mark_sent now k provider db = update_actions (action_of db k) (complete_action now) (
    update_queue now (with_id k)
      (λ r. record r {
        status = Status.sent;
        provider_message_id = some provider;
        last_error = none;
      })
      db)

abbrev pub retry_row : ℕ → String → ℕ → ℕ → OutboundRow → OutboundRow
retry_row now err max_attempts backoff r =
    let spent = leb max_attempts (r.retry_count + 1) in
    record r {
      retry_count = r.retry_count + 1;
      status = if spent then Status.failed else Status.approved;
      send_after = if spent then r.send_after else some (now + backoff);
      last_error = some err;
    }

-- `RETURNING status`: has the retry tipped the row to `failed`?
abbrev retried_failed : ℕ → Option OutboundRow → Bool
retried_failed max_attempts none = false
retried_failed max_attempts (some r) = leb max_attempts (r.retry_count + 1)

pub retry_later : ℕ → ℕ → String → ℕ → ℕ → Db → Db × Bool
retry_later now k err max_attempts backoff db =
    let tipped = retried_failed max_attempts (find_row row_id k db.queue) in
    let db' = update_queue now (with_id k) (retry_row now err max_attempts backoff) db in
    (update_actions (λ a. tipped && action_of db k a) (fail_action now err) db', tipped)

pub defer_until : ℕ → ℕ → ℕ → Db → Db
defer_until now k send_after db =
    update_queue now (with_id k)
      (λ r. record r { status = Status.approved; send_after = some send_after }) db

abbrev pub review_error : String → Bool → String
review_error reason possibly =
    if possibly then String.◌++◌ possibly_delivered_prefix reason else reason

pub fail_review : ℕ → ℕ → String → Bool → Db → Db
fail_review now k reason possibly db =
    let last = review_error reason possibly in
    update_actions (action_of db k) (fail_action now last)
      (update_queue now (with_id k) (fail_with last) db)

-- The pacing queries select by instance and recipient.
abbrev pub to_recipient : String → String → OutboundRow → Bool
to_recipient inst recipient r =
    str_eq r.channel_instance_id inst && str_eq r.recipient_address recipient

abbrev sent_since : String → String → ℕ → OutboundRow → Bool
sent_since inst recipient since r =
    to_recipient inst recipient r && is_sent r.status && leb since r.updated_at

pub count_sent_since : String → String → ℕ → Db → ℕ
count_sent_since inst recipient since db =
    length (select (sent_since inst recipient since) db.queue)

-- min(updated_at), NULL over no row
abbrev earliest : List OutboundRow → Option ℕ
earliest [] = none
earliest (r ∷ rs) = some (elim (earliest rs) [ none ↦ r.updated_at | some t ↦ min r.updated_at t ])

abbrev latest : List OutboundRow → Option ℕ
latest [] = none
latest (r ∷ rs) = some (elim (latest rs) [ none ↦ r.updated_at | some t ↦ max r.updated_at t ])

pub oldest_sent_since : String → String → ℕ → Db → Option ℕ
oldest_sent_since inst recipient since db =
    earliest (select (sent_since inst recipient since) db.queue)

pub last_sent_at : String → String → Db → Option ℕ
last_sent_at inst recipient db =
    latest (select (λ r. to_recipient inst recipient r && is_sent r.status) db.queue)

-- `last_error IS NULL OR last_error NOT LIKE 'possibly-delivered: %'`
abbrev pub is_genuine : Option String → Bool
is_genuine none = true
is_genuine (some e) = not (starts_with e possibly_delivered_prefix)

abbrev pub counts_as_failure : String → String → ℕ → OutboundRow → Bool
counts_as_failure inst recipient since r =
    to_recipient inst recipient r
    && is_failed r.status
    && leb since r.updated_at
    && is_genuine r.last_error

pub failures_since : String → String → ℕ → Db → ℕ
failures_since inst recipient since db =
    length (select (counts_as_failure inst recipient since) db.queue)
