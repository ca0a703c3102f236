-- ===== src/Scheduling/Actions/Kept.antt =====
-- What the statements of src/scheduling/scheduling-repo.ts keep of the tables.
use mathlib.Core.Option
use agent_orchestrator.Base.{
  ℕ, ◌≤◌, Bool, true, Option, some, none, List, [], ◌∷◌, ◌≡◌, sym, ◌∙◌, arith, if◌then◌else◌, inl,
  inr, length, select, find_row, find_row-update_where, find_row-append_old, find_row-append_new,
  HasUniqueKeys, HasUniqueKeys-update_where, HasUniqueKeys-append, Option-cases, Bool-cases,
}
use agent_orchestrator.Outbound.Rows.{OutboundRow}
use agent_orchestrator.Scheduling.Rows.{ScheduledAction, action_id, Tables}
use agent_orchestrator.Scheduling.Actions.{stamp, update_actions, of_action}
use agent_orchestrator.Scheduling.Creation.{append_action}
use agent_orchestrator.Scheduling.Actions.Edges.{
  ◌⇝◌, Goes, at_rest, move, Goes-trans, is_open, edge_open,
}

-- How many rows of the queue an action has.
abbrev pub rows_of : ℕ → Tables → ℕ
rows_of k db = length (select (of_action k) db.queue)

abbrev pub action_at : ℕ → Tables → Option ScheduledAction
action_at k db = find_row action_id k db.actions

-- Keys are unique and below the sequence; an action has at most one row of the queue, and none
-- before it has been dispatched.
pub record Sound (db : Tables) : Type 0 where
  pub unique : HasUniqueKeys action_id db.actions
  pub fresh : (k : ℕ) → db.next_action ≤ k → action_at k db ≡ none
  pub unknown : (k : ℕ) → action_at k db ≡ none → rows_of k db ≡ 0
  pub unsent :
      (k : ℕ) (a : ScheduledAction)
      → action_at k db ≡ some a
      → is_open a.status ≡ true
      → rows_of k db ≡ 0
  pub single : (k : ℕ) → rows_of k db ≤ 1

-- Each action is still there, and has followed the diagram.
abbrev pub Follows : Tables → Tables → Type 0
Follows db db' =
    (k : ℕ) (a : ScheduledAction)
    → action_at k db ≡ some a
    → (b : ScheduledAction) × (action_at k db' ≡ some b) × Goes a.status b.status

pub Follows-refl : (db : Tables) → Follows db db
Follows-refl db k a e = (a, e, at_rest)

pub Follows-trans : (db db' db'' : Tables) → Follows db db' → Follows db' db'' → Follows db db''
Follows-trans db db' db'' h k j a e =
    let (b, f, g) = h j a e in let (c, f', g') = k j b f in (c, f', Goes-trans g g')

-- What a step keeps.
abbrev pub Keeps : Tables → Tables → Type 0
Keeps db db' = Sound db → Follows db db' × Sound db'

pub Keeps-trans : (db db' db'' : Tables) → Keeps db db' → Keeps db' db'' → Keeps db db''
Keeps-trans db db' db'' h k s =
    let (f, s') = h s in let (f', s'') = k s' in (Follows-trans db db' db'' f f', s'')

-- An UPDATE of scheduled_actions along the diagram.
module _ (p : ScheduledAction → Bool) (f : ScheduledAction → ScheduledAction) (now : ℕ)
    (db : Tables) (keep : (a : ScheduledAction) → (f a).id ≡ a.id)
    (edge : (k : ℕ) (a : ScheduledAction)
      → action_at k db ≡ some a
      → p a ≡ true
      → a.status ⇝ (f a).status) where
  moved :
      (k : ℕ)
      → action_at k (update_actions now p f db)
        ≡ Option.map (λ a. if p a then stamp now f a else a) (action_at k db)
  moved k = find_row-update_where action_id p (stamp now f) keep k db.actions

  pub update_actions-Follows : Follows db (update_actions now p f db)
  update_actions-Follows k a e = elim (Bool-cases (p a)) [
    | inl hit ↦ (stamp now f a, ground (arith, moved k, e, hit), move at_rest (edge k a e hit))
    | inr other ↦ (a, ground (arith, moved k, e, other), at_rest)
  ]

  pub update_actions-Sound : Sound db → Sound (update_actions now p f db)
  update_actions-Sound h = record {
    unique = HasUniqueKeys-update_where action_id p (stamp now f) keep db.actions h.unique;
    fresh = λ k above. ground (arith, moved k, h.fresh k above);
    unknown = λ k e. elim (Option-cases (action_at k db)) [
      | inl missing ↦ h.unknown k missing
      | inr (a, g) ↦ ground (arith, moved k, g, e)
    ];
    unsent = λ k b e opened. elim (Option-cases (action_at k db)) [
      | inl missing ↦ ground (arith, moved k, missing, e)
      | inr (a, g) ↦ elim (Bool-cases (p a)) [
        | inl hit ↦
            h.unsent k a g (edge_open (edge k a g hit) (ground (arith, moved k, g, e, hit, opened)))
        | inr other ↦ h.unsent k a g (ground (arith, moved k, g, e, other, opened))
      ]
    ];
    single = h.single;
  }

-- The INSERT of an action.
module _ (a : ScheduledAction) (db : Tables) (new : a.id ≡ db.next_action) where
  appended_old :
      (k : ℕ) {b : ScheduledAction}
      → action_at k db ≡ some b
      → action_at k (append_action a db) ≡ some b
  appended_old k {b} e = find_row-append_old action_id k db.actions (a ∷ []) {r = b} e

  pub append_action-Follows : Follows db (append_action a db)
  append_action-Follows k b e = (b, appended_old k {b = b} e, at_rest)

  pub append_action-Sound : Sound db → Sound (append_action a db)
  append_action-Sound h = record {
    unique =
        HasUniqueKeys-append action_id db.actions a (h.fresh a.id (omega (arith, new))) h.unique;
    fresh = λ k above. ground (
      arith,
      above,
      new,
      h.fresh k (omega (arith, above)),
      find_row-append_new action_id k db.actions (a ∷ []),
    );
    unknown = λ k e. elim (Option-cases (action_at k db)) [
      | inl missing ↦ h.unknown k missing
      | inr (b, g) ↦ ground (arith, e, appended_old k {b = b} g)
    ];
    unsent = λ k b e opened. elim (Option-cases (action_at k db)) [
      | inl missing ↦ h.unknown k missing
      | inr (c, g) ↦ h.unsent k b (g ∙ sym (appended_old k {b = c} g) ∙ e) opened
    ];
    single = h.single;
  }

-- A change of the queue that leaves to each action the rows that it has.
pub queue_kept-Sound :
    (db : Tables) (queue : List OutboundRow) (n : ℕ)
    → ((k : ℕ) → length (select (of_action k) queue) ≡ rows_of k db)
    → Sound db
    → Sound (record db { queue = queue; next_row = n })
queue_kept-Sound db queue n same h = record {
  unique = h.unique;
  fresh = h.fresh;
  unknown = λ k e. same k ∙ h.unknown k e;
  unsent = λ k a e opened. same k ∙ h.unsent k a e opened;
  single = λ k. omega (arith, same k, h.single k);
}
