-- ===== src/Llm/Router/Accounts.antt =====
-- The calls of src/adapters/llm/llm-router.ts on the ledger of src/adapters/llm/llm-budget.ts.
use mathlib.Core.Path.{subst}
use agent_orchestrator.Base.{
  ℕ, String, false, some, List, [], ◌∷◌, ◌≡◌, refl, sym, ap, ◌∙◌, arith, inl, ==_refl, inr,
  Bool-cases, Option-cases, has_id, find_row-append_new,
}
use agent_orchestrator.Llm.Budget.{
  Ledger, Day, BudgetReservation, reservation_key, Outcome, done, cost_cap_exceeded, thrown,
  reserve, settle, ledger_after, new_reservation,
}
use agent_orchestrator.Llm.Budget.Reserved.{is_done, Balanced, Issued, booked, reserve-cases}
use agent_orchestrator.Llm.Budget.Closed.{
  Transaction, reserves, settles, forfeits, Transactions, none_yet, and_then, Transactions-Balanced,
}
use agent_orchestrator.Llm.Pricing.{Rate, rate_for, maximum_cost_usd}
use agent_orchestrator.Llm.Router.{
  LlmMessage, LlmRouterDeps, World, Reply, replied, provider_error, other_error, Opts, notify_cap,
  cost_of, settled_with, after_reply, after_reserve, priced, budgeted_call,
}

-- The reservation that was booked is the one under its handle.
booked-Issued :
    (day : Day) (p model role : String) (maximum : ℕ) (db : Ledger)
    → Balanced db
    → Issued
        (record { id = db.next_id; reserved_usd = maximum })
        (booked day p model role maximum db)
booked-Issued day p model role maximum db h = record {
  row = new_reservation db.next_id day p model role maximum;
  found =
      find_row-append_new reservation_key db.next_id db.reservations
        (new_reservation db.next_id day p model role maximum ∷ [])
        (h.fresh db.next_id (omega arith))
      ∙ ground (arith, ==_refl db.next_id);
  amount = refl;
}

module _ {ℓ κ} {V : Type ℓ} {P : Type κ} (deps : LlmRouterDeps) (opts : Opts V P) (day : Day)
    (now : ℕ) where
  pub notify_cap-ledger :
      (committed : ℕ) (w : World) → (notify_cap deps opts day now committed w).0.ledger ≡ w.ledger
  unfolding notify_cap
  notify_cap-ledger committed w = elim (Bool-cases (has_id w.cap_notified_for day.date)) [
    | inl already ↦ rw already refl
    | inr new ↦ elim (Bool-cases deps.admin_reachable) [
      | inl reached ↦ rw (new, reached) refl
      | inr lost ↦ rw (new, lost) refl
    ]
  ]

  after_reserve-refused :
      (p : String) (messages : List LlmMessage) (r : Rate) (w : World)
      (o : Outcome BudgetReservation)
      → is_done o ≡ false
      → (after_reserve deps opts day now p messages r w o).0.ledger ≡ w.ledger
  after_reserve-refused p messages r w (done handle db) e = cc
  after_reserve-refused p messages r w (cost_cap_exceeded committed cap) e =
      notify_cap-ledger committed w
  after_reserve-refused p messages r w thrown e = refl

  settled_with-ledger :
      (v : V) (w : World) (o : Outcome (Unit {0}))
      → (settled_with deps opts day now v w o).0.ledger ≡ ledger_after w.ledger o
  settled_with-ledger v w (done u db) = refl
  settled_with-ledger v w (cost_cap_exceeded committed cap) = refl
  settled_with-ledger v w thrown = refl

  after_reply-Transaction :
      (p : String) (r : Rate) (handle : BudgetReservation) (w : World) (reply : Reply V)
      → Issued handle w.ledger
      → Transaction w.ledger (after_reply deps opts day now p r handle w reply).0.ledger
  after_reply-Transaction p r handle w (replied v i o) issued =
      subst (λ db. Transaction w.ledger db)
        (sym (settled_with-ledger v w (settle handle (cost_of deps opts day now p r i o) w.ledger)))
        (settles handle (cost_of deps opts day now p r i o) w.ledger issued)
  after_reply-Transaction p r handle w (provider_error kind) issued =
      forfeits handle w.ledger issued
  after_reply-Transaction p r handle w other_error issued = forfeits handle w.ledger issued

  reserved-Transactions :
      (p : String) (messages : List LlmMessage) (r : Rate) (w : World)
      → Balanced w.ledger
      → Transactions w.ledger (priced deps opts day now p messages w (some r)).0.ledger
  reserved-Transactions p messages r w h =
      let maximum = maximum_cost_usd r (opts.request_bytes p messages) opts.max_tokens in
      let cap = deps.daily_cap_usd in
      let model = deps.model_for p in
      let o = reserve day p model opts.role maximum cap w.ledger in
      elim (reserve-cases day p model opts.role maximum cap w.ledger) [
        | inl (at, within) ↦
            let step : Transaction w.ledger (booked day p model opts.role maximum w.ledger) =
              subst (λ db. Transaction w.ledger db) (ap (ledger_after w.ledger) at)
                (reserves day p model opts.role maximum cap w.ledger) in
            rw at (
              and_then (and_then (none_yet w.ledger) step) (
                after_reply-Transaction p r
                  (record { id = w.ledger.next_id; reserved_usd = maximum })
                  (record w { ledger = booked day p model opts.role maximum w.ledger })
                  (opts.reply p messages) (booked-Issued day p model opts.role maximum w.ledger h)))
        | inr (kept, refused) ↦
            subst (λ db. Transactions w.ledger db)
              (sym (after_reserve-refused p messages r w o refused)) (none_yet w.ledger)
      ]

  budgeted_call-Transactions :
      (p : String) (messages : List LlmMessage) (w : World)
      → Balanced w.ledger
      → Transactions w.ledger (budgeted_call deps opts day now p messages w).0.ledger
  unfolding budgeted_call
  budgeted_call-Transactions p messages w h = elim (Option-cases (rate_for p (deps.model_for p))) [
    | inl unknown ↦ rw unknown (none_yet w.ledger)
    | inr (r, e) ↦ rw e (reserved-Transactions p messages r w h)
  ]

  pub budgeted_call-Balanced :
      (p : String) (messages : List LlmMessage) (w : World)
      → Balanced w.ledger
      → Balanced (budgeted_call deps opts day now p messages w).0.ledger
  budgeted_call-Balanced p messages w h =
      Transactions-Balanced (budgeted_call-Transactions p messages w h) h
