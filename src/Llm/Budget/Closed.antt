-- ===== src/Llm/Budget/Closed.antt =====
-- Closing reservations of src/adapters/llm/llm-budget.ts, and what every transaction keeps.
use agent_orchestrator.Base.{
  ℕ, ◌+◌, ◌-◌, ◌≤◌, ◌⊎◌, String, true, false, some, List, [], ◌∷◌, ◌++◌, ◌≡◌, refl, if◌then◌else◌,
  arith, find_row, find_row-update_where, update_where, ==_iff, Option-cases, Bool-cases, inl, inr,
  HasUniqueKeys, HasUniqueKeys-update_where, sum_where-update_where, first-select, ltb,
}
use agent_orchestrator.Llm.Budget.{
  budget_key, Reservation, reservation_key, Ledger, Day, Cost, BudgetReservation, ledger_after,
  close_budget, open_on, open_with, find_open, reserve, settle, settle_row, forfeit, forfeit_row,
}
use agent_orchestrator.Llm.Budget.Effects.{
  row_on-update_where, reserved_of-close_budget, spent_of-close_budget,
}
use agent_orchestrator.Llm.Budget.Reserved.{
  held, open_total, reserved_on, spent_on, Balanced, Issued, booked-Balanced, reserve-cases,
}

open_with-key : (k : ℕ) (r : Reservation) → open_with k r ≡ true → r.id ≡ k
open_with-key k r h = ground arith

-- Closing the open reservation `r` with the change `f`.
abbrev closed :
    ℕ
    → (Reservation → Reservation)
    → Reservation
    → (held_usd spent : ℕ) → List Cost
    → Ledger
    → Ledger
closed k f r held_usd spent costs db = record db {
  budgets = close_budget r.budget_date held_usd spent db.budgets;
  reservations = update_where (open_with k) f db.reservations;
  costs = costs;
}

module _ (k spent : ℕ) (f : Reservation → Reservation) (costs : List Cost)
    (same_id : (r : Reservation) → (f r).id ≡ r.id)
    (shut : (d : ℕ) (r : Reservation) → open_on d (f r) ≡ false) (db : Ledger) (h : Balanced db)
    {r : Reservation} (e : find_row reservation_key k db.reservations ≡ some r)
    (o : open_with k r ≡ true) where
  sum_after :
      (d : ℕ)
      → open_total d (closed k f r r.reserved_usd spent costs db)
          + (if open_on d r then r.reserved_usd else 0)
        ≡ open_total d db
  sum_after d = ground (
    arith,
    shut d r,
    sum_where-update_where reservation_key (open_on d) (open_with k) held f k (open_with-key k)
        db.reservations {r = r} h.unique e o,
  )

  closed-Balanced : Balanced (closed k f r r.reserved_usd spent costs db)
  closed-Balanced = record {
    unique =
        HasUniqueKeys-update_where reservation_key (open_with k) f same_id db.reservations h.unique;
    fresh = λ j above. ground (
      arith,
      h.fresh j above,
      find_row-update_where reservation_key (open_with k) f same_id j db.reservations,
    );
    balance = λ d. ground (
      arith,
      sum_after d,
      h.balance d,
      reserved_of-close_budget r.budget_date d r.reserved_usd spent db.budgets,
      o,
    );
  }

  -- What was held was part of what the day had reserved.
  held_le : r.reserved_usd ≤ reserved_on r.budget_date db
  held_le = ground (
    arith,
    sum_after r.budget_date,
    h.balance r.budget_date,
    o,
    ==_iff r.budget_date r.budget_date,
  )

  closed_commits :
      spent ≤ r.reserved_usd
      → (d : ℕ)
      → spent_on d (closed k f r r.reserved_usd spent costs db)
          + reserved_on d (closed k f r r.reserved_usd spent costs db)
        ≤ spent_on d db + reserved_on d db
  closed_commits le d = elim (Option-cases (find_row budget_key d db.budgets)) [
    | inl missing ↦ ground (
      arith,
      missing,
      row_on-update_where r.budget_date d
          (λ b. record b {
            reserved_usd = b.reserved_usd - r.reserved_usd;
            spent_usd = b.spent_usd + spent;
          })
          (λ b. refl) db.budgets,
    )
    | inr (b, f) ↦ ground (
      arith,
      f,
      le,
      held_le,
      spent_of-close_budget r.budget_date d r.reserved_usd spent db.budgets {b = b} f,
      reserved_of-close_budget r.budget_date d r.reserved_usd spent db.budgets,
      ==_iff d r.budget_date,
    )
  ]

-- `settle` closes the open reservation under the handle's key and books the cost, or leaves the
-- ledger as it was.
settle-cases :
    (handle : BudgetReservation) (cost : Cost) (db : Ledger)
    → Issued handle db
    → HasUniqueKeys reservation_key db.reservations
    → ((r : Reservation) × (find_row reservation_key handle.id db.reservations ≡ some r)
        × (open_with handle.id r ≡ true)
        × (cost.cost_usd ≤ r.reserved_usd)
        × (ledger_after db (settle handle cost db)
            ≡ closed handle.id
                (settle_row cost.cost_usd)
                r
                r.reserved_usd
                cost.cost_usd
                (db.costs ++ cost ∷ [])
                db))
      ⊎ (ledger_after db (settle handle cost db) ≡ db)
unfolding settle
settle-cases handle cost db issued u = elim (Bool-cases (ltb handle.reserved_usd cost.cost_usd)) [
  | inl above ↦ inr (rw above refl)
  | inr within ↦ elim (Option-cases (find_open handle.id db)) [
    | inl gone ↦ inr (rw (within, gone) refl)
    | inr (r, e) ↦
        let at =
          first-select reservation_key handle.id (open_with handle.id) (open_with-key handle.id)
            db.reservations {r = r} u e in
        let same : r.reserved_usd ≡ handle.reserved_usd =
          ground (arith, issued.found, issued.amount, at.0) in
        inl (r, at.0, at.1, ground (arith, within, same), rw (within, e, same) refl)
  ]
]

forfeit-cases :
    (handle : BudgetReservation) (db : Ledger)
    → Issued handle db
    → HasUniqueKeys reservation_key db.reservations
    → ((r : Reservation) × (find_row reservation_key handle.id db.reservations ≡ some r)
        × (open_with handle.id r ≡ true)
        × (forfeit handle db
            ≡ closed handle.id forfeit_row r r.reserved_usd r.reserved_usd db.costs db))
      ⊎ (forfeit handle db ≡ db)
unfolding forfeit
forfeit-cases handle db issued u = elim (Option-cases (find_open handle.id db)) [
  | inl gone ↦ inr (rw gone refl)
  | inr (r, e) ↦
      let at =
        first-select reservation_key handle.id (open_with handle.id) (open_with-key handle.id)
          db.reservations {r = r} u e in
      let same : r.reserved_usd ≡ handle.reserved_usd =
        ground (arith, issued.found, issued.amount, at.0) in
      inl (r, at.0, at.1, rw (e, same) refl)
]

-- What one transaction makes of the ledger.
pub data Transaction : Ledger → Ledger → Type 0 where
  reserves :
      (day : Day) (provider model role : String) (maximum cap : ℕ) (db : Ledger)
      → Transaction db (ledger_after db (reserve day provider model role maximum cap db))
  settles :
      (handle : BudgetReservation) (cost : Cost) (db : Ledger)
      → Issued handle db
      → Transaction db (ledger_after db (settle handle cost db))
  forfeits :
      (handle : BudgetReservation) (db : Ledger)
      → Issued handle db
      → Transaction db (forfeit handle db)

pub Transaction-Balanced : {db db' : Ledger} → Transaction db db' → Balanced db → Balanced db'
Transaction-Balanced (reserves day provider model role maximum cap db) h =
    elim (reserve-cases day provider model role maximum cap db) [
      | inl (e, within) ↦ rw e (booked-Balanced day provider model role maximum db h)
      | inr (e, refused) ↦ rw e h
    ]
Transaction-Balanced (settles handle cost db issued) h =
    elim (settle-cases handle cost db issued h.unique) [
      | inl (r, e, o, le, same) ↦ rw same (
          closed-Balanced handle.id cost.cost_usd (settle_row cost.cost_usd) (db.costs ++ cost ∷ [])
            (λ r. refl) (λ d r. ground arith) db h {r = r} e o)
      | inr e ↦ rw e h
    ]
Transaction-Balanced (forfeits handle db issued) h =
    elim (forfeit-cases handle db issued h.unique) [
      | inl (r, e, o, same) ↦ rw same (
          closed-Balanced handle.id r.reserved_usd forfeit_row db.costs (λ r. refl)
            (λ d r. ground arith) db h {r = r} e o)
      | inr e ↦ rw e h
    ]

pub data Transactions : Ledger → Ledger → Type 0 where
  none_yet : (db : Ledger) → Transactions db db
  and_then :
      {db db' db'' : Ledger} → Transactions db db' → Transaction db' db'' → Transactions db db''

-- However reservations are made, settled and forfeited, each day's row goes on holding exactly what
-- that day's open reservations hold together, if it does so at the start, with keys in order.
pub Transactions-Balanced : {db db' : Ledger} → Transactions db db' → Balanced db → Balanced db'
Transactions-Balanced (none_yet db) h = h
Transactions-Balanced (and_then before step) h =
    Transaction-Balanced step (Transactions-Balanced before h)

-- Settling or forfeiting never raises what a day has committed (its spend and its reserved amount),
-- whatever the outcome of the call; the ledger is balanced and the handle was given out by `reserve`.
pub close_never_commits :
    (handle : BudgetReservation) (cost : Cost) (d : ℕ) (db : Ledger)
    → Balanced db
    → Issued handle db
    → (spent_on d (ledger_after db (settle handle cost db))
          + reserved_on d (ledger_after db (settle handle cost db))
        ≤ spent_on d db + reserved_on d db)
      × (spent_on d (forfeit handle db) + reserved_on d (forfeit handle db)
          ≤ spent_on d db + reserved_on d db)
close_never_commits handle cost d db h issued = (
  elim (settle-cases handle cost db issued h.unique) [
    | inl (r, e, o, le, same) ↦ rw same (
        closed_commits handle.id cost.cost_usd (settle_row cost.cost_usd) (db.costs ++ cost ∷ [])
          (λ r. refl) (λ d r. ground arith) db h {r = r} e o le d)
    | inr e ↦ rw e (omega arith)
  ],
  elim (forfeit-cases handle db issued h.unique) [
    | inl (r, e, o, same) ↦ rw same (
        closed_commits handle.id r.reserved_usd forfeit_row db.costs (λ r. refl)
          (λ d r. ground arith) db h {r = r} e o (omega arith) d)
    | inr e ↦ rw e (omega arith)
  ],
)
