-- ===== src/Inbox/Queue/Threads.antt =====
-- The two reads of a thread in src/inbox/inbox-repo.ts.
use text.Mathlib.Text.{◌==◌ as str_eq}
use agent_orchestrator.Base.{
  ℕ, ◌+◌, ◌*◌, String, Bool, false, ◌&&◌, ◌||◌, Option, some, none, List, ltb, leb, ◌==◌, select,
  take, map, is_some, get_or_else, order_by,
}
use agent_orchestrator.Inbox.Rows.{Direction, is_inbound, InboxRow, Db}

pub record ThreadMessage : Type 0 where
  pub body : String
  pub received_at : ℕ

pub record ThreadConversationTurn : Type 0 where
  pub direction : Direction
  pub body : String
  pub received_at : ℕ

abbrev has_text : Option String → String → Bool
has_text none s = false
has_text (some t) s = str_eq t s

abbrev pub on_thread : String → InboxRow → Bool
on_thread thread r = has_text r.channel_thread_id thread

-- ORDER BY received_at DESC
abbrev newest_first : InboxRow → InboxRow → Bool
newest_first r s = leb s.received_at r.received_at

-- `body IS NOT NULL` has been tested where a row is read.
abbrev body_of : InboxRow → String
body_of r = get_or_else r.body ""

pub load_thread_messages : String → ℕ → Db → List ThreadMessage
load_thread_messages thread limit db =
    map (λ r. record { body = body_of r; received_at = r.received_at })
      (take limit (
        order_by newest_first
          (select (λ r. on_thread thread r && is_inbound r.direction && is_some r.body) db.inbox)))

pub record PriorInput : Type 0 where
  pub instance_id : String
  pub thread_id : String
  pub before_received_at : ℕ
  pub before_inbox_id : ℕ
  pub limit : ℕ

-- (received_at, id) < (t, k), by rows' order
abbrev pub row_before : ℕ → ℕ → InboxRow → Bool
row_before t k r = ltb r.received_at t || (r.received_at == t && ltb r.id k)

abbrev pub lookback : ℕ
lookback = 48 * 60 * 60000

abbrev pub is_prior : PriorInput → InboxRow → Bool
is_prior input r =
    str_eq r.channel_instance_id input.instance_id
    && on_thread input.thread_id r
    && is_some r.body
    && row_before input.before_received_at input.before_inbox_id r
    && leb input.before_received_at (r.received_at + lookback)

-- ORDER BY received_at, id
abbrev pub oldest_first : InboxRow → InboxRow → Bool
oldest_first r s =
    ltb r.received_at s.received_at || (r.received_at == s.received_at && leb r.id s.id)

abbrev latest_first : InboxRow → InboxRow → Bool
latest_first r s = oldest_first s r

abbrev turn : InboxRow → ThreadConversationTurn
turn r = record { direction = r.direction; body = body_of r; received_at = r.received_at }

abbrev pub prior_rows : PriorInput → Db → List InboxRow
prior_rows input db =
    order_by oldest_first
      (take input.limit (order_by latest_first (select (is_prior input) db.inbox)))

pub load_prior_thread_conversation : PriorInput → Db → List ThreadConversationTurn
load_prior_thread_conversation input db = map turn (prior_rows input db)
