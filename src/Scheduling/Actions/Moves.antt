-- ===== src/Scheduling/Actions/Moves.antt =====
-- The operations of src/scheduling/scheduling-repo.ts keep every action on its diagram, and its rows
-- of the queue to one.
use agent_orchestrator.Base.{
  ℕ, ◌+◌, String, Bool, true, ◌&&◌, ◌||◌, Option, some, none, List, ◌≡◌, refl, arith, ◌==◌, inl,
  inr, length, select, map, member, find_row_key, Option-cases, member-take, select_of_member,
  member-order_by, order_by,
}
use agent_orchestrator.Outbound.Rows.{ActionStatus, OutboundRow}
use agent_orchestrator.Scheduling.Rows.{ScheduledAction, action_id, Tables, is_running, is_pending}
use agent_orchestrator.Scheduling.Actions.{
  update_actions, of_action, is_due, chosen, to_running, claim_due, finish, complete_reminder,
  is_rearmable, rearmed, rearm_recurring_reminder, release_action_for_retry, Terminal, failed,
  missed, status_of, mark_action_terminal, stuck_message, stuck_reminder, unclaimed, interrupted,
  reclaim_stuck,
}
use agent_orchestrator.Scheduling.Creation.{
  append_action, CreateInput, new_action, find_command, create_scheduled_action,
  create_app_reminder, app_reminder, sooner,
}
use agent_orchestrator.Scheduling.Actions.Edges.{
  ◌⇝◌, start, miss, give_up, complete, again, miss_running, fail, edge_of_pending, edge_of_running,
}
use agent_orchestrator.Scheduling.Actions.Kept.{
  rows_of, action_at, Sound, Follows-refl, Keeps, Keeps-trans, update_actions-Follows,
  update_actions-Sound, append_action-Follows, append_action-Sound, queue_kept-Sound,
}

pub by_update :
    (p : ScheduledAction → Bool) (f : ScheduledAction → ScheduledAction) (now : ℕ) (db : Tables)
    → ((a : ScheduledAction) → (f a).id ≡ a.id)
    → ((k : ℕ) (a : ScheduledAction)
        → Sound db
        → action_at k db ≡ some a
        → p a ≡ true
        → a.status ⇝ (f a).status)
    → Keeps db (update_actions now p f db)
by_update p f now db keep edge h = (
  update_actions-Follows p f now db keep (λ k a e hit. edge k a h e hit),
  update_actions-Sound p f now db keep (λ k a e hit. edge k a h e hit) h,
)

pub by_append :
    (a : ScheduledAction) (db : Tables) → a.id ≡ db.next_action → Keeps db (append_action a db)
by_append a db new h = (append_action-Follows a db new, append_action-Sound a db new h)

pub by_queue :
    (db : Tables) (queue : List OutboundRow) (n : ℕ)
    → ((k : ℕ) → length (select (of_action k) queue) ≡ rows_of k db)
    → Keeps db (record db { queue = queue; next_row = n })
by_queue db queue n same h = (Follows-refl db, queue_kept-Sound db queue n same h)

pub create-Keeps :
    (now : ℕ) (input : CreateInput) (db : Tables)
    → Keeps db (create_scheduled_action now input db).0
unfolding create_scheduled_action
create-Keeps now input db h =
    elim (Option-cases (find_command input.source_chat_id input.source_message_id db)) [
      | inl absent ↦ rw absent (by_append (new_action now db.next_action input) db refl h)
      | inr (a, e) ↦ rw e (Follows-refl db, h)
    ]

-- A claimed action was pending.
chosen_pending :
    (limit now : ℕ) (locked : ℕ → Bool) (db : Tables) (k : ℕ) (a : ScheduledAction)
    → Sound db
    → action_at k db ≡ some a
    → member a.id (map action_id (chosen limit now locked db)) ≡ true
    → is_pending a.status ≡ true
chosen_pending limit now locked db k a h e m =
    let same = find_row_key action_id k db.actions {r = a} e in
    let due = select (is_due now locked) db.actions in
    let listed = member-take action_id k limit (order_by sooner due) (rw same at m) in
    ground (
      arith,
      select_of_member action_id (is_due now locked) k db.actions {r = a} h.unique e
          (rw (member-order_by sooner action_id k due) at listed),
    )

pub claim-Keeps :
    (limit now : ℕ) (locked : ℕ → Bool) (db : Tables) → Keeps db (claim_due limit now locked db).0
unfolding claim_due
claim-Keeps limit now locked db =
    by_update (λ a. member a.id (map action_id (chosen limit now locked db))) (to_running now) now
      db (λ a. refl)
      (λ k a h e m. edge_of_pending (chosen_pending limit now locked db k a h e m) start)

pub complete-Keeps : (now k : ℕ) (db : Tables) → Keeps db (complete_reminder now k db)
unfolding complete_reminder
complete-Keeps now k db =
    by_update (λ a. a.id == k && is_running a.status) (finish ActionStatus.completed now none) now
      db (λ a. refl) (λ j a h e m. edge_of_running (ground (arith, m)) complete)

pub rearm-Keeps :
    (now k execute_at expires_at : ℕ) (db : Tables)
    → Keeps db (rearm_recurring_reminder now k execute_at expires_at db).0
unfolding rearm_recurring_reminder
rearm-Keeps now k execute_at expires_at db =
    by_update (is_rearmable k) (rearmed execute_at expires_at) now db (λ a. refl)
      (λ j a h e m. edge_of_running (ground (arith, m)) again)

pub release-Keeps :
    (now k : ℕ) (reason : String) (db : Tables)
    → Keeps db (release_action_for_retry now k reason db)
unfolding release_action_for_retry
release-Keeps now k reason db =
    by_update (λ a. a.id == k && is_running a.status)
      (λ a. record a {
        status = ActionStatus.pending;
        retry_count = a.retry_count + 1;
        claimed_at = none;
        last_error = some reason;
      })
      now db (λ a. refl) (λ j a h e m. edge_of_running (ground (arith, m)) again)

edge_to_terminal :
    (s : ActionStatus) (t : Terminal) → (is_pending s || is_running s) ≡ true → s ⇝ status_of t
edge_to_terminal ActionStatus.pending failed h = give_up
edge_to_terminal ActionStatus.pending missed h = miss
edge_to_terminal ActionStatus.running failed h = fail
edge_to_terminal ActionStatus.running missed h = miss_running
edge_to_terminal ActionStatus.dispatched t h = cc
edge_to_terminal ActionStatus.completed t h = cc
edge_to_terminal ActionStatus.cancelled t h = cc
edge_to_terminal ActionStatus.missed t h = cc
edge_to_terminal ActionStatus.failed t h = cc

pub mark-Keeps :
    (now k : ℕ) (t : Terminal) (reason : String) (db : Tables)
    → Keeps db (mark_action_terminal now k t reason db)
unfolding mark_action_terminal
mark-Keeps now k t reason db =
    by_update (λ a. a.id == k && (is_pending a.status || is_running a.status))
      (finish (status_of t) now (some reason)) now db (λ a. refl)
      (λ j a h e m. edge_to_terminal a.status t (ground (arith, m)))

pub reclaim-Keeps : (now mins : ℕ) (db : Tables) → Keeps db (reclaim_stuck now mins db).0
unfolding reclaim_stuck
reclaim-Keeps now mins db =
    let reset = update_actions now (stuck_message now mins) unclaimed db in
    Keeps-trans db reset
      (update_actions now (stuck_reminder now mins)
        (finish ActionStatus.failed now (some interrupted)) reset)
      (by_update (stuck_message now mins) unclaimed now db (λ a. refl)
        (λ j a h e m. edge_of_running (ground (arith, m)) again))
      (by_update (stuck_reminder now mins) (finish ActionStatus.failed now (some interrupted)) now
        reset (λ a. refl) (λ j a h e m. edge_of_running (ground (arith, m)) fail))

pub reminds-Keeps :
    (grace now : ℕ) (body : String) (execute_at : ℕ) (timezone : String) (customer : Option String)
    (by : String) (db : Tables)
    → Keeps db (create_app_reminder grace now body execute_at timezone customer by db).0
unfolding create_app_reminder
reminds-Keeps grace now body execute_at timezone customer by db =
    by_append (app_reminder grace now db.next_action body execute_at timezone customer by) db refl
