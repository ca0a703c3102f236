-- ===== src/Outbound/Queue/Breaker.antt =====
-- Which failures count toward the recipient's circuit breaker.
use agent_orchestrator.Base.{
  ℕ, ◌+◌, ◌≤◌, String, Bool, true, false, some, ◌≡◌, refl, arith, if◌then◌else◌, HasUniqueKeys,
  length-select-update_where, length-select-update_where_same,
}
use text.Mathlib.Text.{starts_with}
use text.Mathlib.TextPositions.{starts_with-append}
use agent_orchestrator.Outbound.Rows.{Status, OutboundRow, row_id, Db}
use agent_orchestrator.Outbound.Queue.{
  stamp, is_stuck, fail_with, stuck_error, reclaim_stuck, review_error, fail_review,
  possibly_delivered_prefix, to_recipient, counts_as_failure, failures_since,
}
use agent_orchestrator.Outbound.Queue.Effects.{row_at}

-- A failure of a row in flight is counted by its recipient's breaker once if it is definite, and
-- not at all if the message was possibly delivered.
failures_since-fail_review :
    (now k since : ℕ) (reason inst recipient : String) (possibly : Bool) (db : Db) {r : OutboundRow}
    → HasUniqueKeys row_id db.queue
    → row_at k db ≡ some r
    → r.status ≡ Status.sending
    → to_recipient inst recipient r ≡ true
    → since ≤ now
    → starts_with reason possibly_delivered_prefix ≡ false
    → failures_since inst recipient since (fail_review now k reason possibly db)
      ≡ failures_since inst recipient since db + (if possibly then 0 else 1)
unfolding failures_since fail_review
failures_since-fail_review now k since reason inst recipient true db {r} u e flying to recent
      plain =
    let d =
      length-select-update_where row_id (counts_as_failure inst recipient since)
        (stamp now (fail_with (review_error reason true))) k db.queue u e (ground arith) in
    ground (arith, d, starts_with-append possibly_delivered_prefix reason)
failures_since-fail_review now k since reason inst recipient false db {r} u e flying to recent
      plain =
    let d =
      length-select-update_where row_id (counts_as_failure inst recipient since)
        (stamp now (fail_with (review_error reason false))) k db.queue u e (ground arith) in
    ground (arith, d)

stuck_error-prefix : starts_with stuck_error possibly_delivered_prefix ≡ true
stuck_error-prefix = refl

-- Reclaiming stuck rows pauses no recipient: the breaker counts none of them.
pub failures_since-reclaim_stuck :
    (now mins since : ℕ) (inst recipient : String) (db : Db)
    → failures_since inst recipient since (reclaim_stuck now mins db).0
      ≡ failures_since inst recipient since db
unfolding failures_since reclaim_stuck
failures_since-reclaim_stuck now mins since inst recipient db =
    length-select-update_where_same (counts_as_failure inst recipient since) (is_stuck now mins)
      (stamp now (fail_with stuck_error)) (λ r h. ground (arith, stuck_error-prefix)) db.queue
