-- ===== src/Outbound/Drainer.antt =====
-- src/adapters/outbound/outbound-drainer.factory.ts: one tick of the drainer and the gates that a
-- claimed row passes before its message leaves. The channel adapters, the clock and the locks of
-- other sessions are arguments; alerts and dispatched messages are kept in the order they occur.
pub mod Handled
use agent_orchestrator.Base.{
  ℕ, ◌+◌, ◌*◌, ◌-◌, ◌^◌, suc, String, str_eq, Bool, true, false, ◌&&◌, ◌||◌, Option, some, none,
  List, [], ◌∷◌, ◌++◌, leb, ltb, if◌then◌else◌, any, get_or_else, min, max, length, is_some,
}
use Prim.Native.String
use agent_orchestrator.Outbound.Rows.{Db}
use agent_orchestrator.Outbound.Queue.{
  ClaimedOutbound, claim_due, reclaim_stuck, mark_sent, retry_later, defer_until, fail_review,
  count_sent_since, oldest_sent_since, last_sent_at, failures_since,
}
use agent_orchestrator.Outbound.SendWindow.{
  Luxon, BusinessHour, Holiday, Reason, SendWindowResult, compute_send_window,
}

abbrev pub claim_batch : ℕ
claim_batch = 25

abbrev pub max_send_attempts : ℕ
max_send_attempts = 3

abbrev pub retry_base_backoff_ms : ℕ
retry_base_backoff_ms = 60000

abbrev pub hour_ms : ℕ
hour_ms = 3600000

abbrev pub day_ms : ℕ
day_ms = 86400000

pub record DrainerConfig : Type 0 where
  pub rate_per_hour : ℕ
  pub min_gap_ms : ℕ
  pub max_recipient_failures : ℕ
  pub failure_window_min : ℕ
  pub default_tz : String
  pub stuck_minutes : ℕ
  pub email_enabled : Bool

-- What the drainer reads of a channel adapter.
pub record Adapter : Type 0 where
  pub instance_id : String
  pub channel_type : String
  pub can_send : Bool

pub record OutboundMessage : Type 0 where
  pub instance_id : String
  pub recipient_address : String
  pub thread_key : Option String
  pub in_reply_to : Option String
  pub subject : Option String
  pub body : String
  pub attachment : Option String
  pub is_group : Bool

-- What is caught around `adapter.send` and `markSent`.
pub data Caught : Type 0 where
  send_error : (retriable possibly_delivered : Bool) (reason : String) → Caught  -- OutboundSendError
  error : (name : String) → Caught  -- another Error
  value : Caught  -- anything else that was thrown

-- `adapter.send` followed by `markSent`.
pub data SendOutcome : Type 0 where
  delivered : (provider_message_id : String) → SendOutcome
  refused : Caught → SendOutcome  -- `send` threw
  unrecorded : (name : String) → SendOutcome  -- `send` returned and `markSent` threw

pub data Alert : Type 0 where
  no_adapter : ℕ → Alert
  isolation_mismatch : ℕ → Alert
  paused : (recipient : String) (failures : ℕ) → Alert
  no_window : ℕ → Alert
  queued_until : ℕ → (until : ℕ) → Option Reason → Alert
  possibly_sent : ℕ → (reason : String) → Alert
  attempts_spent : ℕ → (reason : String) → Alert
  rejected : ℕ → (reason : String) → Alert
  stuck_rows : ℕ → Alert

pub record World : Type 0 where
  pub db : Db
  pub alerts : List Alert
  pub dispatched : List (ℕ × OutboundMessage)  -- row id and message, for each call of `send`
  pub alerted_pauses : List String  -- the Set of one tick

-- The instants that one row's processing reads from the clock.
pub record Clock : Type 0 where
  pub row_at : ℕ
  pub lease_at : ℕ
  pub done_at : ℕ

abbrev pub on_db : (Db → Db) → World → World
on_db f w = record w { db = f w.db }

abbrev pub alert : Alert → World → World
alert a w = record w { alerts = w.alerts ++ a ∷ [] }

-- `['whatsapp', ...(cfg.emailEnabled ? ['email'] : [])]`
abbrev pub claim_channel_types : DrainerConfig → List String
claim_channel_types cfg = if cfg.email_enabled then "whatsapp" ∷ "email" ∷ [] else "whatsapp" ∷ []

-- The conservative reading of a caught value: retriable, possibly delivered, reason.
abbrev pub reading : Caught → Bool × Bool × String
reading (send_error retriable possibly reason) = (retriable, possibly, reason)
reading (error name) = (false, true, name)
reading value = (false, true, "unknown send error")

abbrev pub backoff_of : ClaimedOutbound → ℕ
backoff_of row = retry_base_backoff_ms * 2 ^ min row.retry_count 6

pub classify : ℕ → ClaimedOutbound → Caught → World → World
classify now row err w =
    let (retriable, possibly, reason) = reading err in
    if possibly
    then alert (possibly_sent row.id reason) (on_db (fail_review now row.id reason true) w)
    else (if retriable
        then (let (db', failed) =
              retry_later now row.id reason max_send_attempts (backoff_of row) w.db in
            let w' = record w { db = db' } in
            if failed then alert (attempts_spent row.id reason) w' else w')
        else alert (rejected row.id reason) (on_db (fail_review now row.id reason false) w))

abbrev pub message_of : ClaimedOutbound → OutboundMessage
message_of row = record {
  instance_id = row.channel_instance_id;
  recipient_address = row.recipient_address;
  thread_key = row.thread_key;
  in_reply_to = row.in_reply_to;
  subject = row.subject;
  body = row.body;
  attachment = row.attachment_ref;
  is_group = get_or_else row.is_group false;
}

-- The try block of the lease.
pub dispatch : ℕ → ClaimedOutbound → SendOutcome → World → World
dispatch now row outcome w =
    let w' = record w { dispatched = w.dispatched ++ (row.id, message_of row) ∷ [] } in
    elim outcome [
      | delivered pid ↦ on_db (mark_sent now row.id pid) w'
      | refused err ↦ classify now row err w'
      | unrecorded name ↦ classify now row (error name) w'
    ]

-- `last && leaseNow - last < minGapMs`
abbrev pub too_soon : DrainerConfig → ℕ → Option ℕ → Bool
too_soon cfg now none = false
too_soon cfg now (some last) = ltb now (last + cfg.min_gap_ms)

-- The body of the lease: hourly cap, minimum gap, dispatch.
pub in_lease : DrainerConfig → Clock → ClaimedOutbound → SendOutcome → World → World
in_lease cfg clock row outcome w =
    let now = clock.lease_at in
    let inst = row.channel_instance_id in
    let last = last_sent_at inst row.recipient_address w.db in
    if leb cfg.rate_per_hour (count_sent_since inst row.recipient_address (now - hour_ms) w.db)
    then on_db
        (defer_until now row.id (
          get_or_else (oldest_sent_since inst row.recipient_address (now - hour_ms) w.db) now
          + hour_ms))
        w
    else (if too_soon cfg now last
        then on_db (defer_until now row.id (get_or_else last 0 + cfg.min_gap_ms)) w
        else dispatch clock.done_at row outcome w)

-- withRecipientLease: a key that another session holds is not waited for.
pub with_lease : DrainerConfig → Clock → Bool → ClaimedOutbound → SendOutcome → World → World
with_lease cfg clock held row outcome w =
    if held
    then on_db (defer_until clock.done_at row.id (clock.done_at + max cfg.min_gap_ms 1000)) w
    else in_lease cfg clock row outcome w

abbrev pub pause_key : ClaimedOutbound → String
pause_key row = String.◌++◌ row.channel_instance_id (String.◌++◌ "|" row.recipient_address)

abbrev pub was_alerted : String → World → Bool
was_alerted k w = any (λ j. str_eq j k) w.alerted_pauses

-- One alert for each paused recipient and tick.
abbrev alert_pause : ClaimedOutbound → ℕ → World → World
alert_pause row failures w =
    if was_alerted (pause_key row) w
    then w
    else alert (paused row.recipient_address failures)
        (record w { alerted_pauses = pause_key row ∷ w.alerted_pauses })

-- One alert for all the rows that a tick reclaims.
abbrev pub alert_stuck : List ℕ → World → World
alert_stuck [] w = w
alert_stuck (k ∷ ks) w = alert (stuck_rows (suc (length ks))) w

module _ (luxon : Luxon) (cfg : DrainerConfig) (registry : String → Option Adapter)
    (hours : List BusinessHour) (holidays : List Holiday) where
  pub window_at : ℕ → ClaimedOutbound → SendWindowResult
  window_at now row =
      compute_send_window luxon now (get_or_else row.timezone cfg.default_tz) hours holidays
        (if is_some row.customer_id then row.faith else some "none")

  -- (c) the send window, which two kinds of row bypass
  pub check_window : Clock → Bool → ClaimedOutbound → SendOutcome → World → World
  check_window clock held row outcome w =
      let win = window_at clock.row_at row in
      let until = get_or_else win.next_open (clock.row_at + day_ms) in
      let parked = on_db (defer_until clock.row_at row.id until) w in
      if row.bypass_send_window || win.allowed
      then with_lease cfg clock held row outcome w
      else alert (queued_until row.id until win.reason)
          (if is_some win.next_open then parked else alert (no_window row.id) parked)

  abbrev pub recent_failures : Clock → ClaimedOutbound → World → ℕ
  recent_failures clock row w =
      failures_since row.channel_instance_id row.recipient_address
        (clock.row_at - cfg.failure_window_min * 60000) w.db

  -- (b) the failure breaker
  pub check_breaker : Clock → Bool → ClaimedOutbound → SendOutcome → World → World
  check_breaker clock held row outcome w =
      let failures = recent_failures clock row w in
      if leb cfg.max_recipient_failures failures
      then alert_pause row failures (
          on_db (defer_until clock.row_at row.id (clock.row_at + cfg.failure_window_min * 60000)) w)
      else check_window clock held row outcome w

  abbrev pub is_isolated : Adapter → ClaimedOutbound → Bool
  is_isolated a row =
      str_eq a.instance_id row.channel_instance_id && str_eq a.channel_type row.channel_type

  -- (a2) account isolation
  pub check_isolation : Clock → Bool → Adapter → ClaimedOutbound → SendOutcome → World → World
  check_isolation clock held a row outcome w =
      if is_isolated a row
      then check_breaker clock held row outcome w
      else alert (isolation_mismatch row.id) (
          on_db
            (fail_review clock.row_at row.id
              "account-isolation mismatch: resolved adapter instance/channel differs from row"
              false)
            w)

  abbrev unsendable : Clock → ClaimedOutbound → World → World
  unsendable clock row w =
      alert (no_adapter row.id)
        (on_db (fail_review clock.row_at row.id "no send-capable adapter for instance" false) w)

  -- (a) a send-capable adapter
  pub process_row : Clock → Bool → ClaimedOutbound → SendOutcome → World → World
  process_row clock held row outcome w = elim (registry row.channel_instance_id) [
    | none ↦ unsendable clock row w
    | some a ↦
        if a.can_send then check_isolation clock held a row outcome w else unsendable clock row w
  ]

  -- What the outside does to one claimed row: the clock, the lock, the adapter's answer.
  pub record Circumstance : Type 0 where
    pub clock : Clock
    pub held : Bool
    pub outcome : SendOutcome
    pub crashed : Bool  -- a query threw before the send

  -- The loop over the claimed rows; a row whose processing throws stays `sending`.
  unfoldable pub process_rows : (ℕ → Circumstance) → List ClaimedOutbound → World → World
  process_rows around [] w = w
  process_rows around (row ∷ rows) w =
      let c = around row.id in
      process_rows around rows (if c.crashed then w else process_row c.clock c.held row c.outcome w)

  abbrev pub reclaimed : ℕ → World → World
  reclaimed now w =
      let (db', stuck) = reclaim_stuck now cfg.stuck_minutes w.db in
      alert_stuck stuck (record w { db = db'; alerted_pauses = [] })

  -- One tick: reclaim, claim, process.
  unfoldable pub tick : ℕ → (ℕ → Bool) → (ℕ → Circumstance) → World → World
  tick now locked around w =
      let w' = reclaimed now w in
      let (db', rows) = claim_due claim_batch (claim_channel_types cfg) now locked w'.db in
      process_rows around rows (record w' { db = db' })
