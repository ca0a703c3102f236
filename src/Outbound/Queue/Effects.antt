-- ===== src/Outbound/Queue/Effects.antt =====
-- What each operation of src/outbound/outbound-repo.ts does to the row under each key.
use mathlib.Core.Option
use agent_orchestrator.Base.{
  ℕ, String, Bool, Option, some, none, ◌≡◌, refl, ◌==◌, if◌then◌else◌, find_row,
  find_row-update_where,
}
use agent_orchestrator.Outbound.Rows.{Status, OutboundRow, row_id, Db}
use agent_orchestrator.Base.{HasUniqueKeys, HasUniqueKeys-update_where, Each-update_where, arith}
use agent_orchestrator.Outbound.Edges.{Quiet, Quiet-refl, QuietTables, edge_of_sending, expire}
use agent_orchestrator.Outbound.Queue.{
  stamp, with_id, update_queue, is_stuck, fail_with, stuck_error, reclaim_stuck, mark_sent,
  retry_row, retry_later, defer_until, review_error, fail_review,
}

-- The row under a key.
abbrev pub row_at : ℕ → Db → Option OutboundRow
row_at k db = find_row row_id k db.queue

abbrev pub changed_at : ℕ → (OutboundRow → OutboundRow) → OutboundRow → OutboundRow
changed_at k f r = if r.id == k then f r else r

abbrev pub sent_row : String → OutboundRow → OutboundRow
sent_row provider r = record r {
  status = Status.sent;
  provider_message_id = some provider;
  last_error = none;
}

abbrev pub deferred_row : ℕ → OutboundRow → OutboundRow
deferred_row send_after r = record r { status = Status.approved; send_after = some send_after }

-- An update of the one row under `k`.
pub record OneRow (k : ℕ) (f : OutboundRow → OutboundRow) (db db' : Db) : Type 0 where
  pub rows : (j : ℕ) → row_at j db' ≡ Option.map (changed_at k f) (row_at j db)
  pub next : db'.next_id ≡ db.next_id
  pub unique : HasUniqueKeys row_id db.queue → HasUniqueKeys row_id db'.queue

update_queue-OneRow :
    (now k : ℕ) (f : OutboundRow → OutboundRow) (db : Db)
    → ((r : OutboundRow) → (f r).id ≡ r.id)
    → OneRow k (stamp now f) db (update_queue now (with_id k) f db)
update_queue-OneRow now k f db keep = record {
  rows = λ j. find_row-update_where row_id (with_id k) (stamp now f) keep j db.queue;
  next = refl;
  unique = λ u. HasUniqueKeys-update_where row_id (with_id k) (stamp now f) keep db.queue u;
}

module _ (now k : ℕ) (db : Db) where
  pub mark_sent-OneRow :
      (provider : String)
      → OneRow k (stamp now (sent_row provider)) db (mark_sent now k provider db)
  unfolding mark_sent
  mark_sent-OneRow provider =
      let one = update_queue-OneRow now k (sent_row provider) db (λ r. refl) in
      record { rows = one.rows; next = refl; unique = one.unique }

  pub defer_until-OneRow :
      (send_after : ℕ)
      → OneRow k (stamp now (deferred_row send_after)) db (defer_until now k send_after db)
  unfolding defer_until
  defer_until-OneRow send_after = update_queue-OneRow now k (deferred_row send_after) db (λ r. refl)

  pub fail_review-OneRow :
      (reason : String) (possibly : Bool)
      → OneRow k
          (stamp now (fail_with (review_error reason possibly)))
          db
          (fail_review now k reason possibly db)
  unfolding fail_review
  fail_review-OneRow reason possibly =
      let one =
        update_queue-OneRow now k (fail_with (review_error reason possibly)) db (λ r. refl) in
      record { rows = one.rows; next = refl; unique = one.unique }

  pub retry_later-OneRow :
      (err : String) (max_attempts backoff : ℕ)
      → OneRow k
          (stamp now (retry_row now err max_attempts backoff))
          db
          (retry_later now k err max_attempts backoff db).0
  unfolding retry_later
  retry_later-OneRow err max_attempts backoff =
      let one = update_queue-OneRow now k (retry_row now err max_attempts backoff) db (λ r. refl) in
      record { rows = one.rows; next = refl; unique = one.unique }

-- Reclaiming moves stuck rows from `sending` to `failed` and leaves the others.
pub reclaim_stuck-Quiet : (now mins : ℕ) (db : Db) → QuietTables db (reclaim_stuck now mins db).0
unfolding reclaim_stuck
reclaim_stuck-Quiet now mins db = record {
  rows =
      Each-update_where Quiet (is_stuck now mins) (stamp now (fail_with stuck_error)) Quiet-refl
        (λ r h. record {
          same_id = refl;
          same_retries = refl;
          edge = edge_of_sending (ground arith) expire;
        })
        db.queue;
  next = refl;
}
