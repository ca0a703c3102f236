-- ===== src/Llm/Budget/Tests.antt =====
-- The theorems about src/adapters/llm/llm-budget.ts at concrete ledgers.
use agent_orchestrator.Base.{ℕ, ◌+◌, ◌≤◌, none, [], ◌∷◌, ◌≡◌, refl, arith}
use agent_orchestrator.Llm.Budget.{
  ReservationStatus, Reservation, Ledger, Day, Cost, BudgetReservation, Outcome, done, thrown,
  ledger_after, rebuilt_spend, reserve, settle, forfeit,
}
use agent_orchestrator.Llm.Budget.Reserved.{
  Balanced, Issued, open_total, spent_on, reserved_on, reserve_within_cap,
}
use agent_orchestrator.Llm.Budget.Closed.{
  none_yet, and_then, settles, Transactions-Balanced, close_never_commits,
}
use agent_orchestrator.Llm.Budget.Once.{settle_once}

abbrev today : Day
today = record { date = 20; begins = 1000 }

abbrev open_row : Reservation
open_row = record {
  id = 1;
  budget_date = 20;
  reserved_usd = 40;
  actual_usd = none;
  status = ReservationStatus.reserved;
  provider = "anthropic";
  model = "m";
  role = "draft";
}

abbrev cost_of : ℕ → Cost
cost_of usd = record {
  created_at = 1500;
  provider = "anthropic";
  model = "m";
  role = "draft";
  customer_id = none;
  input_tokens = 10;
  output_tokens = 5;
  cost_usd = usd;
}

-- One open reservation, and 7 spent.
abbrev ledger : Ledger
ledger = record {
  budgets = record { budget_date = 20; spent_usd = 7; reserved_usd = 40 } ∷ [];
  reservations = open_row ∷ [];
  costs = cost_of 7 ∷ [];
  next_id = 2;
}

abbrev handle_1 : BudgetReservation
handle_1 = record { id = 1; reserved_usd = 40 }

ledger-Balanced : Balanced ledger
ledger-Balanced = record {
  unique = (refl, tt);
  fresh = λ k above. ground (arith, above);
  balance = λ d. ground arith;
}

handle-Issued : Issued handle_1 ledger
handle-Issued = record { row = open_row; found = refl; amount = refl }

abbrev after_reserve : Ledger
after_reserve = ledger_after ledger (reserve today "anthropic" "m" "draft" 30 100 ledger)

grants :
    reserve today "anthropic" "m" "draft" 30 100 ledger
    ≡ done (record { id = 2; reserved_usd = 30 }) after_reserve
unfolding reserve
grants = refl

refuses : reserve today "anthropic" "m" "draft" 60 100 ledger ≡ Outcome.cost_cap_exceeded 47 100
unfolding reserve
refuses = refl

reserve_within_cap_example :
    (spent_on 20 after_reserve ≡ rebuilt_spend today ledger)
    × (open_total 20 after_reserve ≡ open_total 20 ledger + 30)
    × (spent_on 20 after_reserve + open_total 20 after_reserve ≤ 100)
reserve_within_cap_example =
    reserve_within_cap today "anthropic" "m" "draft" 30 100 ledger ledger-Balanced grants

abbrev after_settle : Ledger
after_settle = ledger_after ledger (settle handle_1 (cost_of 25) ledger)

settles_one : settle handle_1 (cost_of 25) ledger ≡ done tt after_settle
unfolding settle
settles_one = refl

Transactions-Balanced_example : Balanced after_settle
Transactions-Balanced_example =
    Transactions-Balanced
      (and_then (none_yet ledger) (settles handle_1 (cost_of 25) ledger handle-Issued))
      ledger-Balanced

close_never_commits_example :
    (spent_on 20 after_settle + reserved_on 20 after_settle
      ≤ spent_on 20 ledger + reserved_on 20 ledger)
    × (spent_on 20 (forfeit handle_1 ledger) + reserved_on 20 (forfeit handle_1 ledger)
        ≤ spent_on 20 ledger + reserved_on 20 ledger)
close_never_commits_example =
    close_never_commits handle_1 (cost_of 25) 20 ledger ledger-Balanced handle-Issued

settle_once_example :
    (settle handle_1 (cost_of 9) after_settle ≡ thrown)
    × (forfeit handle_1 after_settle ≡ after_settle)
settle_once_example = settle_once handle_1 (cost_of 25) (cost_of 9) ledger settles_one
