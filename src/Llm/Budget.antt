-- ===== src/Llm/Budget.antt =====
-- src/adapters/llm/llm-budget.ts: the daily cost cap, with reservations that are settled or
-- forfeited. Amounts are exact, in millionths of a dollar (NUMERIC(14,6)); a transaction that
-- throws leaves the tables as they were.
pub mod Effects
pub mod Reserved
pub mod Closed
pub mod Once
mod Tests
use agent_orchestrator.Base.{
  ℕ, ◌+◌, ◌-◌, String, Bool, true, false, ◌&&◌, Option, some, none, List, [], ◌∷◌, ◌++◌, leb, ltb,
  ◌==◌, if◌then◌else◌, select, first, length, update_where, find_row, sum_where,
}

pub data ReservationStatus : Type 0 where
  reserved settled forfeited : ReservationStatus

abbrev pub is_reserved : ReservationStatus → Bool
is_reserved reserved = true
is_reserved _ = false

abbrev pub is_forfeited : ReservationStatus → Bool
is_forfeited forfeited = true
is_forfeited _ = false

-- llm_daily_budgets
pub record DailyBudget : Type 0 where
  pub budget_date : ℕ
  pub spent_usd : ℕ
  pub reserved_usd : ℕ

-- llm_budget_reservations
pub record Reservation : Type 0 where
  pub id : ℕ
  pub budget_date : ℕ
  pub reserved_usd : ℕ
  pub actual_usd : Option ℕ
  pub status : ReservationStatus
  pub provider : String
  pub model : String
  pub role : String

abbrev pub reservation_key : Reservation → ℕ
reservation_key r = r.id

abbrev pub budget_key : DailyBudget → ℕ
budget_key b = b.budget_date

-- llm_costs; `created_at` is the instant of the insert.
pub record Cost : Type 0 where
  pub created_at : ℕ
  pub provider : String
  pub model : String
  pub role : String
  pub customer_id : Option String
  pub input_tokens : ℕ
  pub output_tokens : ℕ
  pub cost_usd : ℕ

pub record Ledger : Type 0 where
  pub budgets : List DailyBudget
  pub reservations : List Reservation
  pub costs : List Cost
  pub next_id : ℕ

-- A day in Panama: its date and the instant at which it begins.
pub record Day : Type 0 where
  pub date : ℕ
  pub begins : ℕ

-- The handle that `reserve` returns.
pub record BudgetReservation : Type 0 where
  pub id : ℕ
  pub reserved_usd : ℕ

pub data Outcome {ℓ} (A : Type ℓ) : Type ℓ where
  done : A → Ledger → Outcome A
  cost_cap_exceeded : (committed cap : ℕ) → Outcome A
  thrown : Outcome A

abbrev pub ledger_after {ℓ} : {A : Type ℓ} → Ledger → Outcome A → Ledger
ledger_after db (done a db') = db'
ledger_after db (cost_cap_exceeded committed cap) = db
ledger_after db thrown = db

abbrev pub empty_budget : ℕ → DailyBudget
empty_budget date = record { budget_date = date; spent_usd = 0; reserved_usd = 0 }

-- INSERT ... ON CONFLICT (budget_date) DO NOTHING
abbrev with_budget : ℕ → List DailyBudget → Option DailyBudget → List DailyBudget
with_budget date budgets none = budgets ++ empty_budget date ∷ []
with_budget date budgets (some b) = budgets

abbrev pub ensure_budget : ℕ → List DailyBudget → List DailyBudget
ensure_budget date budgets = with_budget date budgets (find_row budget_key date budgets)

abbrev pub cost_since : ℕ → Cost → Bool
cost_since begins c = leb begins c.created_at

abbrev pub forfeited_on : ℕ → Reservation → Bool
forfeited_on date r = r.budget_date == date && is_forfeited r.status

abbrev pub open_on : ℕ → Reservation → Bool
open_on date r = r.budget_date == date && is_reserved r.status

-- What the durable sources say was spent on a day.
abbrev pub rebuilt_spend : Day → Ledger → ℕ
rebuilt_spend day db =
    sum_where (cost_since day.begins) (λ c. c.cost_usd) db.costs
    + sum_where (forfeited_on day.date) (λ r. r.reserved_usd) db.reservations

abbrev pub on_date : ℕ → DailyBudget → Bool
on_date date b = b.budget_date == date

-- `Number(rows[0]?.spent_usd ?? 0)` and the same of `reserved_usd`
abbrev pub spent_of : Option DailyBudget → ℕ
spent_of none = 0
spent_of (some b) = b.spent_usd

abbrev pub reserved_of : Option DailyBudget → ℕ
reserved_of none = 0
reserved_of (some b) = b.reserved_usd

-- The budget rows when the cap is tested: the day's row exists and its spend is rebuilt.
abbrev pub rebuilt : Day → Ledger → List DailyBudget
rebuilt day db =
    update_where (on_date day.date) (λ b. record b { spent_usd = rebuilt_spend day db })
      (ensure_budget day.date db.budgets)

abbrev pub new_reservation : ℕ → Day → String → String → String → ℕ → Reservation
new_reservation k day provider model role maximum = record {
  id = k;
  budget_date = day.date;
  reserved_usd = maximum;
  actual_usd = none;
  status = reserved;
  provider = provider;
  model = model;
  role = role;
}

-- The insert's CHECK (reserved_usd > 0) throws at 0.
unfoldable pub reserve :
    Day → (provider model role : String) → (maximum cap : ℕ) → Ledger → Outcome BudgetReservation
reserve day provider model role maximum cap db =
    let budgets = rebuilt day db in
    let row = find_row budget_key day.date budgets in
    let committed = spent_of row + reserved_of row in
    if ltb cap (committed + maximum)
    then cost_cap_exceeded committed cap
    else (if maximum == 0
        then thrown
        else done (record { id = db.next_id; reserved_usd = maximum })
            (record db {
              budgets =
                  update_where (on_date day.date)
                    (λ b. record b { reserved_usd = b.reserved_usd + maximum }) budgets;
              reservations =
                  db.reservations
                  ++ new_reservation db.next_id day provider model role maximum ∷ [];
              next_id = db.next_id + 1;
            }))

-- `WHERE id = $1 AND status = 'reserved'`
abbrev pub open_with : ℕ → Reservation → Bool
open_with k r = r.id == k && is_reserved r.status

abbrev find_open : ℕ → Ledger → Option Reservation
find_open k db = first (select (open_with k) db.reservations)

-- Closing a reservation; greatest(0, ...) is the subtraction of ℕ.
abbrev pub close_budget : ℕ → ℕ → ℕ → List DailyBudget → List DailyBudget
close_budget date held spent =
    update_where (on_date date)
      (λ b. record b { reserved_usd = b.reserved_usd - held; spent_usd = b.spent_usd + spent })

abbrev pub settle_row : ℕ → Reservation → Reservation
settle_row actual r = record r { actual_usd = some actual; status = settled }

abbrev pub forfeit_row : Reservation → Reservation
forfeit_row r = record r { actual_usd = some r.reserved_usd; status = forfeited }

abbrev settle_found : BudgetReservation → Cost → Ledger → Option Reservation → Outcome (Unit {0})
settle_found handle cost db none = thrown
settle_found handle cost db (some r) = done tt (record db {
  budgets = close_budget r.budget_date handle.reserved_usd cost.cost_usd db.budgets;
  reservations = update_where (open_with handle.id) (settle_row cost.cost_usd) db.reservations;
  costs = db.costs ++ cost ∷ [];
})

unfoldable pub settle : BudgetReservation → Cost → Ledger → Outcome (Unit {0})
settle handle cost db =
    if ltb handle.reserved_usd cost.cost_usd
    then thrown
    else settle_found handle cost db (find_open handle.id db)

abbrev forfeit_found : BudgetReservation → Ledger → Option Reservation → Ledger
forfeit_found handle db none = db
forfeit_found handle db (some r) = record db {
  budgets = close_budget r.budget_date handle.reserved_usd handle.reserved_usd db.budgets;
  reservations = update_where (open_with handle.id) forfeit_row db.reservations;
}

unfoldable pub forfeit : BudgetReservation → Ledger → Ledger
forfeit handle db = forfeit_found handle db (find_open handle.id db)

pub record BudgetStatus : Type 0 where
  pub spent_usd : ℕ
  pub reserved_usd : ℕ
  pub active_reservations : ℕ

pub get_llm_budget_status : ℕ → Ledger → BudgetStatus
get_llm_budget_status today db = record {
  spent_usd = spent_of (find_row budget_key today db.budgets);
  reserved_usd = reserved_of (find_row budget_key today db.budgets);
  active_reservations = length (select (open_on today) db.reservations);
}
