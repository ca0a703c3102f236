-- ===== src/Llm/Budget/Once.antt =====
-- A reservation of src/adapters/llm/llm-budget.ts is closed at most once.
use agent_orchestrator.Base.{
  ap, sym, ◌∙◌, first-select-update_where, ℕ, false, some, none, List, ◌≡◌, refl, arith,
  update_where, Option-cases, Bool-cases, inl, inr, select, first, ltb,
}
use agent_orchestrator.Llm.Budget.{
  Reservation, Ledger, Cost, BudgetReservation, done, thrown, ledger_after, open_with, find_open,
  settle, settle_found, settle_row, forfeit, forfeit_row,
}

find_open_after :
    (k : ℕ) (f : Reservation → Reservation) (rs : List Reservation)
    → ((r : Reservation) → open_with k (f r) ≡ false)
    → first (select (open_with k) (update_where (open_with k) f rs)) ≡ none
find_open_after k f rs shut = first-select-update_where (open_with k) f (λ r h. shut r) rs

settle_of_closed :
    (handle : BudgetReservation) (cost : Cost) (db : Ledger)
    → find_open handle.id db ≡ none
    → settle handle cost db ≡ thrown
unfolding settle
settle_of_closed handle cost db gone = elim (Bool-cases (ltb handle.reserved_usd cost.cost_usd)) [
  | inl above ↦ rw above refl
  | inr within ↦ rw (within, gone) refl
]

forfeit_of_closed :
    (handle : BudgetReservation) (db : Ledger)
    → find_open handle.id db ≡ none
    → forfeit handle db ≡ db
unfolding forfeit
forfeit_of_closed handle db gone = rw gone refl

settle_closes :
    (handle : BudgetReservation) (cost : Cost) (db : Ledger) {db' : Ledger}
    → settle handle cost db ≡ done tt db'
    → find_open handle.id db' ≡ none
unfolding settle
settle_closes handle cost db {db'} e = elim (Bool-cases (ltb handle.reserved_usd cost.cost_usd)) [
  | inl above ↦ ground (arith, above, e)
  | inr within ↦ elim (Option-cases (find_open handle.id db)) [
    | inl gone ↦ ground (arith, within, gone, e)
    | inr (r, f) ↦
        let same : db' ≡ ledger_after db (settle_found handle cost db (some r)) =
          ap (ledger_after db) {y = settle_found handle cost db (some r)}
            (sym e ∙ rw (within, f) refl) in
        rw same
          (find_open_after handle.id (settle_row cost.cost_usd) db.reservations (λ r. ground arith))
  ]
]

forfeit_closes :
    (handle : BudgetReservation) (db : Ledger) → find_open handle.id (forfeit handle db) ≡ none
unfolding forfeit
forfeit_closes handle db = elim (Option-cases (find_open handle.id db)) [
  | inl gone ↦ rw (gone, gone) refl
  | inr (r, f) ↦ rw f (find_open_after handle.id forfeit_row db.reservations (λ r. ground arith))
]

-- A reservation that has been settled is closed for good: settling it again throws, and forfeiting it
-- changes nothing.
pub settle_once :
    (handle : BudgetReservation) (cost again : Cost) (db : Ledger) {db' : Ledger}
    → settle handle cost db ≡ done tt db'
    → (settle handle again db' ≡ thrown) × (forfeit handle db' ≡ db')
settle_once handle cost again db {db'} e = (
  settle_of_closed handle again db' (settle_closes handle cost db {db' = db'} e),
  forfeit_of_closed handle db' (settle_closes handle cost db {db' = db'} e),
)

-- After `forfeit` the reservation is closed for good: settling it throws, and forfeiting it again
-- changes nothing.
forfeit_once :
    (handle : BudgetReservation) (cost : Cost) (db : Ledger)
    → (settle handle cost (forfeit handle db) ≡ thrown)
      × (forfeit handle (forfeit handle db) ≡ forfeit handle db)
forfeit_once handle cost db = (
  settle_of_closed handle cost (forfeit handle db) (forfeit_closes handle db),
  forfeit_of_closed handle (forfeit handle db) (forfeit_closes handle db),
)
