-- ===== src/Llm/Budget/Effects.antt =====
-- What the statements of src/adapters/llm/llm-budget.ts do to one day's budget row.
use mathlib.Core.Option
use agent_orchestrator.Base.{
  ℕ, ◌+◌, ◌-◌, Option, some, List, [], ◌∷◌, ◌≡◌, refl, ◌==◌, if◌then◌else◌, arith, find_row,
  find_row_key, find_row-update_where, find_row-append_old, find_row-append_new, update_where,
  ==_iff, Option-cases, inl, inr,
}
use agent_orchestrator.Llm.Budget.{
  empty_budget, DailyBudget, budget_key, Ledger, Day, ensure_budget, on_date, spent_of, reserved_of,
  rebuilt, rebuilt_spend, close_budget,
}

pub row_on : ℕ → List DailyBudget → Option DailyBudget
row_on date budgets = find_row budget_key date budgets

module _ (day d : ℕ) (f : DailyBudget → DailyBudget)
    (keep : (b : DailyBudget) → (f b).budget_date ≡ b.budget_date) (bs : List DailyBudget) where
  pub row_on-update_where :
      find_row budget_key d (update_where (on_date day) f bs)
      ≡ Option.map (λ b. if d == day then f b else b) (find_row budget_key d bs)
  row_on-update_where = elim (Option-cases (find_row budget_key d bs)) [
    | inl missing ↦
        ground (arith, find_row-update_where budget_key (on_date day) f keep d bs, missing)
    | inr (b, e) ↦ ground (
      arith,
      find_row-update_where budget_key (on_date day) f keep d bs,
      e,
      find_row_key budget_key d bs {r = b} e,
    )
  ]

-- The day's row exists once it is ensured, and every row keeps its amounts.
pub reserved_of-ensure_budget :
    (date d : ℕ) (bs : List DailyBudget)
    → reserved_of (find_row budget_key d (ensure_budget date bs))
      ≡ reserved_of (find_row budget_key d bs)
reserved_of-ensure_budget date d bs = elim (Option-cases (find_row budget_key date bs)) [
  | inl missing ↦ elim (Option-cases (find_row budget_key d bs)) [
    | inl none_too ↦
        ground
          (arith, missing, none_too, find_row-append_new budget_key d bs (empty_budget date ∷ []))
    | inr (b, e) ↦
        ground
          (arith, missing, e, find_row-append_old budget_key d bs (empty_budget date ∷ []) {r = b})
  ]
  | inr (b, e) ↦ rw e refl
]

pub ensure_budget-row :
    (date : ℕ) (bs : List DailyBudget)
    → (b : DailyBudget) × (find_row budget_key date (ensure_budget date bs) ≡ some b)
ensure_budget-row date bs = elim (Option-cases (find_row budget_key date bs)) [
  | inl missing ↦ (
    empty_budget date,
    ground (
      arith,
      missing,
      ==_iff date date,
      find_row-append_new budget_key date bs (empty_budget date ∷ []),
    ),
  )
  | inr (b, e) ↦ (b, rw e e)
]

pub spent_of-close_budget :
    (date d held spent : ℕ) (bs : List DailyBudget) {b : DailyBudget}
    → find_row budget_key d bs ≡ some b
    → spent_of (find_row budget_key d (close_budget date held spent bs))
      ≡ spent_of (find_row budget_key d bs) + (if d == date then spent else 0)
spent_of-close_budget date d held spent bs {b} e = ground (
  arith,
  e,
  row_on-update_where date d
      (λ b. record b { reserved_usd = b.reserved_usd - held; spent_usd = b.spent_usd + spent })
      (λ b. refl) bs,
)

-- The cap is tested against the rebuilt spend and what the open reservations hold.
pub reserved_of-rebuilt :
    (day : Day) (db : Ledger) (d : ℕ)
    → reserved_of (find_row budget_key d (rebuilt day db))
      ≡ reserved_of (find_row budget_key d db.budgets)
reserved_of-rebuilt day db d =
    let up =
      row_on-update_where day.date d (λ b. record b { spent_usd = rebuilt_spend day db })
        (λ b. refl) (ensure_budget day.date db.budgets) in
    elim (Option-cases (find_row budget_key d (ensure_budget day.date db.budgets))) [
      | inl missing ↦ ground (arith, missing, up, reserved_of-ensure_budget day.date d db.budgets)
      | inr (b, e) ↦ ground (arith, e, up, reserved_of-ensure_budget day.date d db.budgets)
    ]

pub rebuilt-row :
    (day : Day) (db : Ledger)
    → (b : DailyBudget) × (find_row budget_key day.date (rebuilt day db) ≡ some b)
      × (b.spent_usd ≡ rebuilt_spend day db)
rebuilt-row day db =
    let up =
      row_on-update_where day.date day.date (λ b. record b { spent_usd = rebuilt_spend day db })
        (λ b. refl) (ensure_budget day.date db.budgets) in
    let (b, e) = ensure_budget-row day.date db.budgets in
    (
      record b { spent_usd = rebuilt_spend day db },
      ground (arith, e, up, ==_iff day.date day.date),
      refl,
    )

pub reserved_of-close_budget :
    (date d held spent : ℕ) (bs : List DailyBudget)
    → reserved_of (find_row budget_key d (close_budget date held spent bs)) ≡ (
        if d == date
        then reserved_of (find_row budget_key d bs) - held
        else reserved_of (find_row budget_key d bs))
reserved_of-close_budget date d held spent bs = elim (Option-cases (find_row budget_key d bs)) [
  | inl missing ↦ ground (
    arith,
    missing,
    row_on-update_where date d
        (λ b. record b { reserved_usd = b.reserved_usd - held; spent_usd = b.spent_usd + spent })
        (λ b. refl) bs,
  )
  | inr (b, e) ↦ ground (
    arith,
    e,
    row_on-update_where date d
        (λ b. record b { reserved_usd = b.reserved_usd - held; spent_usd = b.spent_usd + spent })
        (λ b. refl) bs,
  )
]
