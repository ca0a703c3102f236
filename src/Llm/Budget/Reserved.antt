-- ===== src/Llm/Budget/Reserved.antt =====
-- What the daily cap of src/adapters/llm/llm-budget.ts guarantees.
use agent_orchestrator.Base.{
  ap, sym, ◌∙◌, ℕ, ◌+◌, ◌≤◌, ◌⊎◌, String, Bool, true, false, some, none, List, [], ◌∷◌, ◌++◌, ◌≡◌,
  refl, ◌==◌, if◌then◌else◌, arith, find_row, find_row-append_new, update_where, ==_iff,
  Option-cases, Bool-cases, inl, inr, HasUniqueKeys, HasUniqueKeys-append, sum_where,
  sum_where-append, ltb,
}
use agent_orchestrator.Llm.Budget.{
  DailyBudget, budget_key, Reservation, reservation_key, Ledger, Day, BudgetReservation, Outcome,
  done, ledger_after, on_date, spent_of, reserved_of, rebuilt, rebuilt_spend, open_on, reserve,
  new_reservation,
}
use agent_orchestrator.Llm.Budget.Effects.{row_on-update_where, reserved_of-rebuilt, rebuilt-row}

abbrev pub is_done {ℓ} : {A : Type ℓ} → Outcome A → Bool
is_done (done a db) = true
is_done _ = false

abbrev pub held : Reservation → ℕ
held r = r.reserved_usd

-- What the open reservations of a date hold together.
abbrev pub open_total : ℕ → Ledger → ℕ
open_total d db = sum_where (open_on d) held db.reservations

abbrev pub reserved_on : ℕ → Ledger → ℕ
reserved_on d db = reserved_of (find_row budget_key d db.budgets)

abbrev pub spent_on : ℕ → Ledger → ℕ
spent_on d db = spent_of (find_row budget_key d db.budgets)

-- The keys of the reservations are in order, and each day's row holds what its open reservations
-- hold together.
pub record Balanced (db : Ledger) : Type 0 where
  pub unique : HasUniqueKeys reservation_key db.reservations
  pub fresh : (k : ℕ) → db.next_id ≤ k → find_row reservation_key k db.reservations ≡ none
  pub balance : (d : ℕ) → reserved_on d db ≡ open_total d db

-- A handle that `reserve` has given out.
pub record Issued (handle : BudgetReservation) (db : Ledger) : Type 0 where
  pub row : Reservation
  pub found : find_row reservation_key handle.id db.reservations ≡ some row
  pub amount : row.reserved_usd ≡ handle.reserved_usd

reserved_of-add :
    (day d n : ℕ) (bs : List DailyBudget) {b : DailyBudget}
    → find_row budget_key day bs ≡ some b
    → reserved_of (
        find_row budget_key d
          (update_where (on_date day) (λ x. record x { reserved_usd = x.reserved_usd + n }) bs))
      ≡ reserved_of (find_row budget_key d bs) + (if d == day then n else 0)
reserved_of-add day d n bs {b} e =
    let up =
      row_on-update_where day d (λ x. record x { reserved_usd = x.reserved_usd + n }) (λ x. refl)
        bs in
    elim (Option-cases (find_row budget_key d bs)) [
      | inl missing ↦ ground (arith, missing, up, e, ==_iff d day)
      | inr (c, f) ↦ ground (arith, f, up)
    ]

-- The row of the day's budget is there when a reservation is booked on it.
abbrev pub booked : Day → (provider model role : String) → (maximum : ℕ) → Ledger → Ledger
booked day provider model role maximum db = record db {
  budgets =
      update_where (on_date day.date) (λ b. record b { reserved_usd = b.reserved_usd + maximum })
        (rebuilt day db);
  reservations = db.reservations ++ new_reservation db.next_id day provider model role maximum ∷ [];
  next_id = db.next_id + 1;
}

-- `reserve` books the reservation or leaves the ledger as it was.
pub reserve-cases :
    (day : Day) (provider model role : String) (maximum cap : ℕ) (db : Ledger)
    → ((reserve day provider model role maximum cap db
          ≡ done
              (record { id = db.next_id; reserved_usd = maximum })
              (booked day provider model role maximum db))
        × (spent_of (find_row budget_key day.date (rebuilt day db))
              + reserved_of (find_row budget_key day.date (rebuilt day db))
              + maximum
            ≤ cap))
      ⊎ ((ledger_after db (reserve day provider model role maximum cap db) ≡ db)
          × (is_done (reserve day provider model role maximum cap db) ≡ false))
unfolding reserve
reserve-cases day provider model role maximum cap db =
    elim (Bool-cases (
      ltb cap (
        spent_of (find_row budget_key day.date (rebuilt day db))
        + reserved_of (find_row budget_key day.date (rebuilt day db))
        + maximum))) [
          | inl over ↦ inr (rw over refl, rw over refl)
          | inr within ↦ elim (Bool-cases (maximum == 0)) [
            | inl nothing ↦ inr (rw (within, nothing) refl, rw (within, nothing) refl)
            | inr something ↦ inl (rw (within, something) refl, ground (arith, within))
          ]
        ]

pub booked-Balanced :
    (day : Day) (provider model role : String) (maximum : ℕ) (db : Ledger)
    → Balanced db
    → Balanced (booked day provider model role maximum db)
booked-Balanced day provider model role maximum db h = record {
  unique =
      HasUniqueKeys-append reservation_key db.reservations
        (new_reservation db.next_id day provider model role maximum)
        (h.fresh db.next_id (omega arith)) h.unique;
  fresh = λ k above. ground (
    arith,
    above,
    h.fresh k (omega (arith, above)),
    find_row-append_new reservation_key k db.reservations
        (new_reservation db.next_id day provider model role maximum ∷ []),
  );
  balance = λ d.
      let (b, e, s) = rebuilt-row day db in
      ground (
        arith,
        reserved_of-add day.date d maximum (rebuilt day db) e,
        reserved_of-rebuilt day db d,
        h.balance d,
        sum_where-append (open_on d) held db.reservations
            (new_reservation db.next_id day provider model role maximum ∷ []),
      );
}

booked_within :
    (day : Day) (provider model role : String) (maximum cap : ℕ) (db : Ledger)
    → Balanced db
    → spent_of (find_row budget_key day.date (rebuilt day db))
        + reserved_of (find_row budget_key day.date (rebuilt day db))
        + maximum
      ≤ cap
    → (spent_on day.date (booked day provider model role maximum db) ≡ rebuilt_spend day db)
      × (open_total day.date (booked day provider model role maximum db)
          ≡ open_total day.date db + maximum)
      × (spent_on day.date (booked day provider model role maximum db)
            + open_total day.date (booked day provider model role maximum db)
          ≤ cap)
booked_within day provider model role maximum cap db h within =
    let (b, e, s) = rebuilt-row day db in
    let up =
      row_on-update_where day.date day.date
        (λ x. record x { reserved_usd = x.reserved_usd + maximum }) (λ x. refl) (rebuilt day db) in
    let spent : spent_on day.date (booked day provider model role maximum db)
        ≡ rebuilt_spend day db =
      ground (arith, up, e, s) in
    let total : open_total day.date (booked day provider model role maximum db)
        ≡ open_total day.date db + maximum =
      ground (
        arith,
        sum_where-append (open_on day.date) held db.reservations
            (new_reservation db.next_id day provider model role maximum ∷ []),
        ==_iff day.date day.date,
      ) in
    let was : spent_of (find_row budget_key day.date (rebuilt day db)) ≡ rebuilt_spend day db =
      rw e s in
    (
      spent,
      total,
      omega (
        arith,
        spent,
        total,
        was,
        within,
        reserved_of-rebuilt day db day.date,
        h.balance day.date,
      ),
    )

-- A reservation is granted only within the cap: once it is booked, what the durable sources say was
-- spent that day and what the open reservations hold together, the new one included, are at most the
-- cap, in a balanced ledger.
pub reserve_within_cap :
    (day : Day) (provider model role : String) (maximum cap : ℕ) (db : Ledger)
    {handle : BudgetReservation} {db' : Ledger}
    → Balanced db
    → reserve day provider model role maximum cap db ≡ done handle db'
    → (spent_on day.date db' ≡ rebuilt_spend day db)
      × (open_total day.date db' ≡ open_total day.date db + maximum)
      × (spent_on day.date db' + open_total day.date db' ≤ cap)
reserve_within_cap day provider model role maximum cap db {handle} {db'} h e =
    elim (reserve-cases day provider model role maximum cap db) [
      | inl (granted, within) ↦
          rw (ap (ledger_after db) (sym e ∙ granted))
            (booked_within day provider model role maximum cap db h within)
      | inr (same, refused) ↦ ground (arith, refused, e)
    ]
