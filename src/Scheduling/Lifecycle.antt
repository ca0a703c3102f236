-- ===== src/Scheduling/Lifecycle.antt =====
-- Every sequence of the operations of src/scheduling/scheduling-repo.ts, with what producers and the
-- drainer do to the queue between them.
pub mod Once
mod Tests
use mathlib.Core.Path.{subst}
use agent_orchestrator.Base.{
  ℕ, ◌+◌, ◌≤◌, String, Bool, true, false, ◌&&◌, ◌||◌, Option, some, none, List, [], ◌∷◌, ◌++◌, ◌≡◌,
  refl, sym, ap, ◌∙◌, arith, ◌==◌, if◌then◌else◌, inl, inr, length, select, first, take, map,
  member, update_where, find_row, find_row_key, HasUniqueKeys, length-select-kept,
  length-select-append, length-select-none, Option-cases, Bool-cases, has_id, ==_iff, member-take,
  select_of_member, member-order_by, is_some, order_by, some_inj,
}
use agent_orchestrator.Outbound.Rows.{ActionStatus, OutboundRow}
use agent_orchestrator.Scheduling.Rows.{
  ScheduleActionKind, ScheduledAction, action_id, Tables, is_running, is_pending, is_final,
}
use agent_orchestrator.Scheduling.Actions.{
  stamp, update_actions, of_action, queued, enqueue_once, is_due, chosen, to_running, claim_due,
  with_id, is_sendable, set_status, dispatch_customer_message, finish, complete_reminder,
  is_rearmable, rearmed, rearm_recurring_reminder, release_action_for_retry, Terminal, failed,
  missed, status_of, mark_action_terminal, is_stuck, stuck_message, stuck_reminder, unclaimed,
  interrupted, reclaim_stuck, cancelled_action, unsent, cancelled_row, cancel_scheduled_action,
  CancelResult,
}
use agent_orchestrator.Scheduling.Creation.{
  append_action, CreateInput, new_action, find_command, create_scheduled_action,
  create_app_reminder, app_reminder, sooner,
}
use agent_orchestrator.Scheduling.Actions.Edges.{is_open, overwrite, Goes-open}
use agent_orchestrator.Scheduling.Actions.Moves.{
  by_queue, by_update, create-Keeps, reminds-Keeps, claim-Keeps, complete-Keeps, rearm-Keeps,
  release-Keeps, mark-Keeps, reclaim-Keeps,
}
use agent_orchestrator.Scheduling.Actions.Handovers.{dispatch-Keeps, cancel-Keeps}
use agent_orchestrator.Scheduling.Actions.Kept.{
  rows_of, action_at, Sound, Follows, Follows-refl, Keeps, Keeps-trans, update_actions-Follows,
  update_actions-Sound, append_action-Follows, append_action-Sound, queue_kept-Sound,
}

-- One operation. The last two are other code's: what the drainer makes of the queue's rows, with what
-- it writes, by id only, of the actions that have rows (completed or failed; any closed status here),
-- and the rows that producers without a scheduled action add.
pub data Step : Tables → Tables → Type 0 where
  creates :
      (now : ℕ) (input : CreateInput) (db : Tables)
      → Step db (create_scheduled_action now input db).0
  reminds :
      (grace now : ℕ) (body : String) (execute_at : ℕ) (timezone : String)
      (customer : Option String) (by : String) (db : Tables)
      → Step db (create_app_reminder grace now body execute_at timezone customer by db).0
  claims :
      (limit now : ℕ) (locked : ℕ → Bool) (db : Tables) → Step db (claim_due limit now locked db).0
  dispatches : (now k : ℕ) (db : Tables) → Step db (dispatch_customer_message now k db).0
  completes : (now k : ℕ) (db : Tables) → Step db (complete_reminder now k db)
  rearms :
      (now k execute_at expires_at : ℕ) (db : Tables)
      → Step db (rearm_recurring_reminder now k execute_at expires_at db).0
  releases :
      (now k : ℕ) (reason : String) (db : Tables)
      → Step db (release_action_for_retry now k reason db)
  marks :
      (now k : ℕ) (t : Terminal) (reason : String) (db : Tables)
      → Step db (mark_action_terminal now k t reason db)
  reclaims : (now mins : ℕ) (db : Tables) → Step db (reclaim_stuck now mins db).0
  cancels : (now k : ℕ) (db : Tables) → Step db (cancel_scheduled_action now k db).0
  drains :
      (p : OutboundRow → Bool) (f : OutboundRow → OutboundRow) (q : ScheduledAction → Bool)
      (g : ScheduledAction → ScheduledAction) (now : ℕ) (db : Tables)
      → ((r : OutboundRow) → (f r).scheduled_action_id ≡ r.scheduled_action_id)
      → ((a : ScheduledAction) → q a ≡ true → 1 ≤ rows_of a.id db)
      → ((a : ScheduledAction) → ((g a).id ≡ a.id) × (is_open (g a).status ≡ false))
      → Step db (update_actions now q g (record db { queue = update_where p f db.queue }))
  enqueues :
      (r : OutboundRow) (db : Tables)
      → r.scheduled_action_id ≡ none
      → Step db (record db { queue = db.queue ++ r ∷ []; next_row = db.next_row + 1 })

pub data Reach : Tables → Tables → Type 0 where
  here : (db : Tables) → Reach db db
  and_then : {db db' db'' : Tables} → Reach db db' → Step db' db'' → Reach db db''

-- The drainer's write finds no action that is pending or running, since those have no row.
drains-Keeps :
    (p : OutboundRow → Bool) (f : OutboundRow → OutboundRow) (q : ScheduledAction → Bool)
    (g : ScheduledAction → ScheduledAction) (now : ℕ) (db : Tables)
    → ((r : OutboundRow) → (f r).scheduled_action_id ≡ r.scheduled_action_id)
    → ((a : ScheduledAction) → q a ≡ true → 1 ≤ rows_of a.id db)
    → ((a : ScheduledAction) → ((g a).id ≡ a.id) × (is_open (g a).status ≡ false))
    → Keeps db (update_actions now q g (record db { queue = update_where p f db.queue }))
drains-Keeps p f q g now db same named closed =
    let drained : Tables = record db { queue = update_where p f db.queue } in
    let rows = λ (k : ℕ). length-select-kept (of_action k) p f (λ r. rw (same r) refl) db.queue in
    Keeps-trans db drained (update_actions now q g drained)
      (by_queue db (update_where p f db.queue) db.next_row rows)
      (by_update q g now drained (λ a. (closed a).0)
        (λ k a h e hit. elim (Bool-cases (is_open a.status)) [
          | inr shut ↦ overwrite shut (closed a).1
          | inl opened ↦ absurd (
              omega (
                arith,
                named a hit,
                h.unsent k a e opened,
                rows k,
                ap (λ j. rows_of j db) (find_row_key action_id k db.actions {r = a} e),
              ))
        ]))

Step-Keeps : {db db' : Tables} → Step db db' → Keeps db db'
Step-Keeps (creates now input db) = create-Keeps now input db
Step-Keeps (reminds grace now body execute_at timezone customer by db) =
    reminds-Keeps grace now body execute_at timezone customer by db
Step-Keeps (claims limit now locked db) = claim-Keeps limit now locked db
Step-Keeps (dispatches now k db) = dispatch-Keeps now k db
Step-Keeps (completes now k db) = complete-Keeps now k db
Step-Keeps (rearms now k execute_at expires_at db) = rearm-Keeps now k execute_at expires_at db
Step-Keeps (releases now k reason db) = release-Keeps now k reason db
Step-Keeps (marks now k t reason db) = mark-Keeps now k t reason db
Step-Keeps (reclaims now mins db) = reclaim-Keeps now mins db
Step-Keeps (cancels now k db) = cancel-Keeps now k db
Step-Keeps (drains p f q g now db same named closed) = drains-Keeps p f q g now db same named closed
Step-Keeps (enqueues r db free) =
    by_queue db (db.queue ++ r ∷ []) (db.next_row + 1)
      (λ k. ground (arith, free, length-select-append (of_action k) db.queue (r ∷ [])))

Reach-Keeps : {db db' : Tables} → Reach db db' → Keeps db db'
Reach-Keeps (here db) h = (Follows-refl db, h)
Reach-Keeps (and_then {db} {db'} {db''} before last) h =
    Keeps-trans db db' db'' (Reach-Keeps before) (Step-Keeps last) h

-- However the operations interleave, the drainer's unguarded writes of the actions among them, an
-- action has at most one row of the outbound queue, and none
-- while it is pending or running, from tables where it is so and keys are in order.
pub at_most_one_row : {db db' : Tables} → Reach db db' → Sound db → Sound db'
at_most_one_row path h = (Reach-Keeps path h).1

-- However the operations interleave, an action that is neither pending nor running is never so again:
-- it is not claimed, handed over or armed another time. The tables are as for `at_most_one_row` at the
-- start.
pub closed_stays :
    {db db' : Tables} (k : ℕ) {a : ScheduledAction}
    → Reach db db'
    → Sound db
    → action_at k db ≡ some a
    → is_open a.status ≡ false
    → (b : ScheduledAction) × (action_at k db' ≡ some b) × (is_open b.status ≡ false)
closed_stays k {a} path h e shut =
    let (b, g, goes) = (Reach-Keeps path h).0 k a e in
    elim (Bool-cases (is_open b.status)) [
      | inr still ↦ (b, g, still)
      | inl opened ↦ absurd (cc (sym shut ∙ Goes-open goes opened))
    ]
