-- ===== src/Outbound/Lifecycle/Sound.antt =====
-- The invariant on dispatches, and the steps that dispatch nothing.
use mathlib.Core.Path.{subst}
use agent_orchestrator.Base.{
  ℕ, ◌+◌, ◌≤◌, ◌<◌, Option, some, none, List, [], ◌∷◌, ◌++◌, ◌≡◌, arith, ◌==◌, if◌then◌else◌,
  length, select, find_row, find_row-Each, find_row-Each-none, HasUniqueKeys, HasUniqueKeys-Each,
  HasUniqueKeys-append, find_row-append_old, find_row-append_new, Option-cases, Bool-cases,
  some_inj, inl, inr, ◌∙◌, sym, ap,
}
use agent_orchestrator.Outbound.Rows.{Status, OutboundRow, row_id, Db}
use agent_orchestrator.Outbound.Edges.{
  ◌⟶◌, stay, approve, cancel, recall, take, expire, Quiet, Quiet-id, QuietTables,
}
use agent_orchestrator.Outbound.Queue.{ClaimedOutbound}
use agent_orchestrator.Outbound.Queue.Effects.{row_at}
use agent_orchestrator.Outbound.Drafts.Effects.{Appends}
use agent_orchestrator.Outbound.Drainer.{OutboundMessage}
use agent_orchestrator.Outbound.Lifecycle.{Fleet, is_waiting}

-- How often the row's message has been handed to an adapter.
unfoldable pub attempts : ℕ → List (ℕ × OutboundMessage) → ℕ
attempts k log = length (select (λ d. d.0 == k) log)

-- How many of the sessions' rows are the row `k`.
unfoldable pub times : ℕ → List ClaimedOutbound → ℕ
times k rows = length (select (λ c. c.id == k) rows)

abbrev pub waits : Status → ℕ
waits s = if is_waiting s then 1 else 0

-- A row is with at most one session, and with none while it waits; and it has been handed over at
-- most once for each retry that it has spent, or once more while it is handed over.
abbrev pub Fit : Option OutboundRow → (held flying attempts : ℕ) → Type 0
Fit none h f a = (h ≡ 0) × (f ≡ 0) × (a ≡ 0)
Fit (some r) h f a =
    (waits r.status + h + f ≤ 1)
    × (a ≤ 3)
    × (1 ≤ waits r.status + h → (a ≤ r.retry_count) × (r.retry_count < 3))
    × (1 ≤ f → (a ≤ r.retry_count + 1) × (r.retry_count < 3))

pub record IsSound (s : Fleet) : Type 0 where
  pub unique : HasUniqueKeys row_id s.db.queue
  pub fresh : (j : ℕ) → s.db.next_id ≤ j → row_at j s.db ≡ none
  pub fit :
      (j : ℕ) → Fit (row_at j s.db) (times j s.held) (times j s.flying) (attempts j s.dispatched)

edge_waits : {s t : Status} → s ⟶ t → waits t ≤ waits s
edge_waits stay = omega arith
edge_waits approve = omega arith
edge_waits cancel = omega arith
edge_waits recall = omega arith
edge_waits take = omega arith
edge_waits expire = omega arith

Fit-Quiet : (h f a : ℕ) {r s : OutboundRow} → Quiet r s → Fit (some r) h f a → Fit (some s) h f a
Fit-Quiet h f a {r} {s} q (one, total, spent, last) =
    let less = edge_waits q.edge in
    (
      omega (arith, less, one),
      total,
      (λ w. ground (arith, spent (omega (arith, less, w)), q.same_retries)),
      (λ w. ground (arith, last w, q.same_retries)),
    )

-- A step that adds no row, row by row.
pub record IsQuiet (db db' : Db) : Type 0 where
  pub unique : HasUniqueKeys row_id db'.queue
  pub next : db'.next_id ≡ db.next_id
  pub back :
      (j : ℕ) (s : OutboundRow)
      → row_at j db' ≡ some s
      → (r : OutboundRow) × (row_at j db ≡ some r) × Quiet r s
  pub onward :
      (j : ℕ) (r : OutboundRow)
      → row_at j db ≡ some r
      → (s : OutboundRow) × (row_at j db' ≡ some s) × Quiet r s

IsQuiet-none : (db db' : Db) → IsQuiet db db' → (j : ℕ) → row_at j db ≡ none → row_at j db' ≡ none
IsQuiet-none db db' q j e = elim (Option-cases (row_at j db')) [
  | inl gone ↦ gone
  | inr (s, e') ↦ let (r, e'', _) = q.back j s e' in absurd (cc (sym e ∙ e''))
]

pub IsQuiet-IsSound :
    (s : Fleet) (db' : Db) → IsQuiet s.db db' → IsSound s → IsSound (record s { db = db' })
IsQuiet-IsSound s db' q sound = record {
  unique = q.unique;
  fresh = λ j h. IsQuiet-none s.db db' q j (sound.fresh j (omega (arith, q.next)));
  fit = λ j. elim (Option-cases (row_at j s.db)) [
    | inl gone ↦ rw (IsQuiet-none s.db db' q j gone) (
        subst (λ o. Fit o (times j s.held) (times j s.flying) (attempts j s.dispatched)) gone
          (sound.fit j))
    | inr (r, e) ↦
        let (t, e', moved) = q.onward j r e in
        rw e' (
          Fit-Quiet _ _ _ {r = r} {s = t} moved (
            subst (λ o. Fit o (times j s.held) (times j s.flying) (attempts j s.dispatched)) e
              (sound.fit j)))
  ];
}

pub QuietTables-IsQuiet :
    (db db' : Db) → HasUniqueKeys row_id db.queue → QuietTables db db' → IsQuiet db db'
QuietTables-IsQuiet db db' u q = record {
  unique = HasUniqueKeys-Each row_id Quiet Quiet-id _ _ q.rows u;
  next = q.next;
  back = λ j s e. elim (Option-cases (row_at j db)) [
    | inl gone ↦ absurd (cc (sym e ∙ find_row-Each-none row_id Quiet Quiet-id j _ _ q.rows gone))
    | inr (r, e') ↦
        let (t, found, moved) = find_row-Each row_id Quiet Quiet-id j _ _ q.rows e' in
        (r, e', subst (Quiet r) (some_inj (sym found ∙ e)) moved)
  ];
  onward = λ j r e. find_row-Each row_id Quiet Quiet-id j _ _ q.rows e;
}

-- An enqueued row has never been dispatched.
module _ (db db' : Db) (a : Appends db db') where
  row_at-Appends : (j : ℕ) → row_at j db' ≡ find_row row_id j (db.queue ++ a.row ∷ [])
  row_at-Appends j = ap (find_row row_id j) a.queue

  pub Appends-old : (j : ℕ) (r : OutboundRow) → row_at j db ≡ some r → row_at j db' ≡ some r
  Appends-old j r e = row_at-Appends j ∙ find_row-append_old row_id j db.queue (a.row ∷ []) e

  Appends-new :
      (j : ℕ) → row_at j db ≡ none → row_at j db' ≡ (if a.row.id == j then some a.row else none)
  Appends-new j e = row_at-Appends j ∙ find_row-append_new row_id j db.queue (a.row ∷ []) e

module _ (s : Fleet) (db' : Db) (a : Appends s.db db') (sound : IsSound s) where
  abbrev FitsHere : ℕ → Option OutboundRow → Type 0
  FitsHere j o = Fit o (times j s.held) (times j s.flying) (attempts j s.dispatched)

  Appends-Fit : (j : ℕ) → FitsHere j (row_at j db')
  Appends-Fit j = elim (Option-cases (row_at j s.db)) [
    | inr (q, e) ↦ rw (Appends-old s.db db' a j q e) (subst (FitsHere j) e (sound.fit j))
    | inl gone ↦
        let none_here = subst (FitsHere j) gone (sound.fit j) in
        rw (Appends-new s.db db' a j gone) (elim (Bool-cases (a.row.id == j)) [
          | inl new ↦ rw new (ground (arith, none_here, a.untried))
          | inr old ↦ rw old none_here
        ])
  ]

  pub Appends-IsSound : IsSound (record s { db = db' })
  Appends-IsSound = record {
    unique = rw a.queue (
        HasUniqueKeys-append row_id s.db.queue a.row (sound.fresh a.row.id (omega (arith, a.key)))
          sound.unique);
    fresh = λ j h.
        ground
          (arith, Appends-new s.db db' a j (sound.fresh j (omega (arith, a.next))), a.key, a.next);
    fit = Appends-Fit;
  }
