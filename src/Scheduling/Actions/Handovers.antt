-- ===== src/Scheduling/Actions/Handovers.antt =====
-- The two transactions of src/scheduling/scheduling-repo.ts that also write the queue.
use agent_orchestrator.Base.{
  find_row-update_where, ℕ, ◌+◌, Bool, true, false, some, none, List, [], ◌∷◌, ◌++◌, ◌≡◌, refl, sym,
  ◌∙◌, arith, ◌==◌, if◌then◌else◌, inl, inr, length, select, first, update_where, find_row_key,
  length-select-kept, length-select-append, Option-cases, Bool-cases, ==_iff, some_inj,
}
use agent_orchestrator.Outbound.Rows.{ActionStatus, OutboundRow}
use agent_orchestrator.Scheduling.Rows.{ScheduledAction, action_id, Tables, is_running}
use agent_orchestrator.Scheduling.Actions.{
  stamp, update_actions, of_action, queued, enqueue_once, with_id, is_sendable, set_status,
  cancelled_from, dispatch_customer_message, cancelled_action, unsent, cancelled_row,
  cancel_scheduled_action,
}
use agent_orchestrator.Scheduling.Actions.Edges.{
  ◌⇝◌, cancel, hand_over, recall, is_open, edge_of_running,
}
use agent_orchestrator.Scheduling.Actions.Kept.{
  rows_of, action_at, Sound, Follows-refl, Keeps, queue_kept-Sound,
}
use agent_orchestrator.Scheduling.Actions.Moves.{by_update}

first_of_none :
    (q : OutboundRow → Bool) (rs : List OutboundRow)
    → length (select q rs) ≡ 0
    → first (select q rs) ≡ none
first_of_none q [] h = refl
first_of_none q (r ∷ rs) h = ground (arith, first_of_none q rs)

-- A row is added for an action that has none and is no longer open.
module _ (db : Tables) (k n : ℕ) (r : OutboundRow) (b : ScheduledAction)
    (mine : r.scheduled_action_id ≡ some k) (none_yet : rows_of k db ≡ 0)
    (found : action_at k db ≡ some b) (shut : is_open b.status ≡ false) (h : Sound db) where
  counted :
      (j : ℕ)
      → length (select (of_action j) (db.queue ++ r ∷ []))
        ≡ rows_of j db + (if k == j then 1 else 0)
  counted j = ground (arith, mine, length-select-append (of_action j) db.queue (r ∷ []))

  row_added-Sound : Sound (record db { queue = db.queue ++ r ∷ []; next_row = n })
  row_added-Sound = record {
    unique = h.unique;
    fresh = h.fresh;
    unknown = λ j e. elim (Bool-cases (k == j)) [
      | inl same ↦ cc (sym found ∙ rw (sym ((==_iff k j).0 same)) at e)
      | inr other ↦ ground (arith, other, counted j, h.unknown j e)
    ];
    unsent = λ j c e opened. elim (Bool-cases (k == j)) [
      | inl same ↦
          ground (arith, opened, shut, some_inj (sym found ∙ rw (sym ((==_iff k j).0 same)) at e))
      | inr other ↦ ground (arith, other, counted j, h.unsent j c e opened)
    ];
    single = λ j. ground (arith, counted j, h.single j, none_yet, ==_iff k j);
  }

module _ (now k : ℕ) (db : Tables) {a : ScheduledAction} (e : action_at k db ≡ some a)
    (running : is_running a.status ≡ true) where
  same_action :
      (j : ℕ) {b : ScheduledAction} → action_at j db ≡ some b → with_id a.id b ≡ true → b ≡ a
  same_action j {b} f hit =
      let there : j ≡ k = ground (
        arith,
        hit,
        find_row_key action_id j db.actions {r = b} f,
        find_row_key action_id k db.actions {r = a} e,
      ) in
      some_inj (sym f ∙ rw there e)

  marked-Keeps :
      Keeps db (update_actions now (with_id a.id) (set_status ActionStatus.dispatched) db)
  marked-Keeps =
      by_update (with_id a.id) (set_status ActionStatus.dispatched) now db (λ b. refl)
        (λ j b h f hit. edge_of_running (rw (same_action j {b = b} f hit) running) hand_over)

  handed_over-Keeps : Keeps db (
      update_actions now
        (with_id a.id)
        (set_status ActionStatus.dispatched)
        (enqueue_once now a db))
  handed_over-Keeps h =
      let (follows, h') = marked-Keeps h in
      let key = find_row_key action_id k db.actions {r = a} e in
      let zero_rows : rows_of a.id db ≡ 0 = rw key (h.unsent k a e (ground (arith, running))) in
      let empty = first_of_none (of_action a.id) db.queue zero_rows in
      let after : action_at a.id
            (update_actions now (with_id a.id) (set_status ActionStatus.dispatched) db)
          ≡ some (stamp now (set_status ActionStatus.dispatched) a) =
        ground (
          arith,
          e,
          key,
          find_row-update_where action_id (with_id a.id)
              (stamp now (set_status ActionStatus.dispatched)) (λ b. refl) a.id db.actions,
          ==_iff a.id a.id,
        ) in
      rw empty (
        follows,
        row_added-Sound (update_actions now (with_id a.id) (set_status ActionStatus.dispatched) db)
            a.id (db.next_row + 1) (queued now db.next_row a)
            (stamp now (set_status ActionStatus.dispatched) a) refl zero_rows after refl h',
      )

pub dispatch-Keeps : (now k : ℕ) (db : Tables) → Keeps db (dispatch_customer_message now k db).0
unfolding dispatch_customer_message
dispatch-Keeps now k db h = elim (Option-cases (action_at k db)) [
  | inl missing ↦ rw missing (Follows-refl db, h)
  | inr (a, e) ↦ elim (Bool-cases (is_sendable a)) [
    | inl fit ↦ rw (e, fit) (handed_over-Keeps now k db {a = a} e (ground (arith, fit)) h)
    | inr unfit ↦ rw (e, unfit) (Follows-refl db, h)
  ]
]

edge_of_dispatched :
    {s t : ActionStatus} → s ≡ ActionStatus.dispatched → ActionStatus.dispatched ⇝ t → s ⇝ t
edge_of_dispatched {t} h e = rw h e

module _ (now k : ℕ) (db : Tables) {a : ScheduledAction} (e : action_at k db ≡ some a) where
  same_row : (j : ℕ) {b : ScheduledAction} → action_at j db ≡ some b → with_id k b ≡ true → b ≡ a
  same_row j {b} f hit =
      let there : j ≡ k = ground (arith, hit, find_row_key action_id j db.actions {r = b} f) in
      some_inj (sym f ∙ rw there e)

  dropped-Keeps :
      a.status ⇝ ActionStatus.cancelled
      → Keeps db (update_actions now (with_id k) (cancelled_action now) db)
  dropped-Keeps edge =
      by_update (with_id k) (cancelled_action now) now db (λ b. refl)
        (λ j b h f hit. rw (same_row j {b = b} f hit) edge)

  recalled-Keeps :
      a.status ⇝ ActionStatus.cancelled
      → Keeps db (
          update_actions now
            (with_id k)
            (cancelled_action now)
            (record db { queue = update_where (unsent k) (cancelled_row now) db.queue }))
  recalled-Keeps edge h =
      let (follows, h') = dropped-Keeps edge h in
      (
        follows,
        queue_kept-Sound (update_actions now (with_id k) (cancelled_action now) db)
            (update_where (unsent k) (cancelled_row now) db.queue) db.next_row
            (λ j.
              length-select-kept (of_action j) (unsent k) (cancelled_row now) (λ r. refl) db.queue)
            h',
      )

  cancelled_from-Keeps : (s : ActionStatus) → a.status ≡ s → Keeps db (cancelled_from now k db s).0
  cancelled_from-Keeps ActionStatus.pending same h = dropped-Keeps (rw same cancel) h
  cancelled_from-Keeps ActionStatus.dispatched same h =
      elim (Bool-cases (length (select (unsent k) db.queue) == 1)) [
        | inl waiting ↦ rw waiting (recalled-Keeps (rw same recall) h)
        | inr gone ↦ rw gone (Follows-refl db, h)
      ]
  cancelled_from-Keeps ActionStatus.running same h = (Follows-refl db, h)
  cancelled_from-Keeps ActionStatus.completed same h = (Follows-refl db, h)
  cancelled_from-Keeps ActionStatus.cancelled same h = (Follows-refl db, h)
  cancelled_from-Keeps ActionStatus.missed same h = (Follows-refl db, h)
  cancelled_from-Keeps ActionStatus.failed same h = (Follows-refl db, h)

pub cancel-Keeps : (now k : ℕ) (db : Tables) → Keeps db (cancel_scheduled_action now k db).0
unfolding cancel_scheduled_action
cancel-Keeps now k db h = elim (Option-cases (action_at k db)) [
  | inl missing ↦ rw missing (Follows-refl db, h)
  | inr (a, e) ↦ rw e (cancelled_from-Keeps now k db {a = a} e a.status refl h)
]
