-- ===== src/Llm/Router/Filing.antt =====
-- The reservations that a structured call of src/adapters/llm/llm-router.ts leaves in the ledger.
use mathlib.Core.List.{append_assoc, append-nil}
use mathlib.Core.Path.{subst}
use agent_orchestrator.Base.{
  ℕ, String, true, false, some, none, List, [], ◌∷◌, ◌++◌, ◌≡◌, ◌⊎◌, refl, sym, ap, ◌∙◌, arith, inl,
  inr, Bool-cases, Option-cases, find_row, first, select, update_where, All, All-append, ltb,
}
use agent_orchestrator.Llm.Budget.{
  Ledger, Day, BudgetReservation, Reservation, reservation_key, is_reserved, Outcome, done,
  cost_cap_exceeded, thrown, reserve, settle, settle_row, forfeit, forfeit_row, ledger_after,
  new_reservation, open_with, Cost,
}
use agent_orchestrator.Llm.Budget.Reserved.{is_done, Balanced, booked, reserve-cases}
use agent_orchestrator.Llm.Pricing.{Rate, rate_for, maximum_cost_usd}
use agent_orchestrator.Llm.Router.{
  LlmMessage, LlmRouterDeps, Attempt, attempt, schema, World, Reply, replied, provider_error,
  other_error, transport, Called, returned, stopped, failed, Structured, gave_up, accounting_failed,
  Opts, cost_of, settled_with, after_reply, after_reserve, priced, budgeted_call, messages_for,
  Next, after_call, announced, try_chain, chain, call_structured,
}
use agent_orchestrator.Llm.Router.Accounts.{notify_cap-ledger, budgeted_call-Balanced}

abbrev pub IsShut : Reservation → Type 0
IsShut r = is_reserved r.status ≡ false

-- The reservations that were there are as before, and those added are closed, or else `X`.
pub record IsFiled {ℓ} (X : Type ℓ) (db db' : Ledger) : Type ℓ where
  pub added : List Reservation
  pub grown : db'.reservations ≡ db.reservations ++ added
  pub shut : All IsShut added ⊎ X

-- The last row is the one under its key.
module _ (k : ℕ) (x : Reservation) (named : x.id ≡ k) where
  find_open-last :
      (rs : List Reservation)
      → find_row reservation_key k rs ≡ none
      → is_reserved x.status ≡ true
      → first (select (open_with k) (rs ++ x ∷ [])) ≡ some x
  find_open-last [] e o = ground (arith, named, o)
  find_open-last (r ∷ rs) e o = ground (arith, find_open-last rs)

  update_where-last :
      (f : Reservation → Reservation) (rs : List Reservation)
      → find_row reservation_key k rs ≡ none
      → is_reserved x.status ≡ true
      → update_where (open_with k) f (rs ++ x ∷ []) ≡ rs ++ f x ∷ []
  update_where-last f [] e o = ground (arith, named, o)
  update_where-last f (r ∷ rs) e o = ground (arith, update_where-last f rs)

-- A reservation that was just booked, and its closing.
module _ (day : Day) (p model role : String) (maximum : ℕ) (db : Ledger) (h : Balanced db) where
  abbrev handle : BudgetReservation
  handle = record { id = db.next_id; reserved_usd = maximum }

  abbrev entry : Reservation
  entry = new_reservation db.next_id day p model role maximum

  abbrev with_entry : Ledger
  with_entry = booked day p model role maximum db

  entry-open : first (select (open_with db.next_id) (db.reservations ++ entry ∷ [])) ≡ some entry
  entry-open =
      find_open-last db.next_id entry refl db.reservations (h.fresh db.next_id (omega arith)) refl

  forfeit-entry {ℓ} : (X : Type ℓ) → IsFiled X db (forfeit handle with_entry)
  unfolding forfeit
  forfeit-entry X = record {
    added = forfeit_row entry ∷ [];
    grown = rw entry-open (
        update_where-last db.next_id entry refl forfeit_row db.reservations
          (h.fresh db.next_id (omega arith)) refl);
    shut = inl (refl, tt);
  }

  settle-entry {ℓ} :
      (X : Type ℓ) (cost : Cost)
      → (is_done (settle handle cost with_entry) ≡ false → X)
      → IsFiled X db (ledger_after with_entry (settle handle cost with_entry))
  unfolding settle
  settle-entry X cost other = elim (Bool-cases (ltb maximum cost.cost_usd)) [
    | inl above ↦
        rw above (record { added = entry ∷ []; grown = refl; shut = inr (other (rw above refl)) })
    | inr within ↦
        rw (within, entry-open)
          (record {
            added = settle_row cost.cost_usd entry ∷ [];
            grown =
                update_where-last db.next_id entry refl (settle_row cost.cost_usd) db.reservations
                  (h.fresh db.next_id (omega arith)) refl;
            shut = inl (refl, tt);
          })
  ]

IsFiled-none {ℓ} : (X : Type ℓ) (db db' : Ledger) → db' ≡ db → IsFiled X db db'
IsFiled-none X db db' same = record {
  added = [];
  grown = ap (λ d. d.reservations) same ∙ sym (append-nil db.reservations);
  shut = inl tt;
}

-- What is filed first without a reservation left open, and what then.
IsFiled-trans {ℓ κ} :
    (X : Type ℓ) (Y : Type κ) (a b c : Ledger) → ¬ Y → IsFiled Y a b → IsFiled X b c → IsFiled X a c
IsFiled-trans X Y a b c never f g = record {
  added = f.added ++ g.added;
  grown = g.grown ∙ ap (λ rs. rs ++ g.added) f.grown ∙ append_assoc a.reservations f.added g.added;
  shut = elim f.shut [
    | inr y ↦ absurd (never y)
    | inl before ↦ elim g.shut [
      | inl rest ↦ inl (All-append IsShut f.added g.added before rest)
      | inr x ↦ inr x
    ]
  ];
}

module _ {ℓ κ} {V : Type ℓ} {P : Type κ} (deps : LlmRouterDeps) (opts : Opts V P) (day : Day)
    (now : ℕ) where
  -- A call leaves no reservation of its own open, unless it gives up for the accounting.
  abbrev Files : Ledger → World × Called V → Type ℓ
  Files db called = IsFiled (called.1 ≡ stopped accounting_failed) db called.0.ledger

  module _ (p : String) (messages : List LlmMessage) (r : Rate) (w : World)
      (h : Balanced w.ledger) where
    abbrev model : String
    model = deps.model_for p

    abbrev maximum : ℕ
    maximum = maximum_cost_usd r (opts.request_bytes p messages) opts.max_tokens

    abbrev reserving : World
    reserving = record w { ledger = with_entry day p model opts.role maximum w.ledger h }

    settled_with-Files :
        (v : V) (db : Ledger) (o : Outcome (Unit {0}))
        → (is_done o ≡ false
            → (settled_with deps opts day now v reserving o).1 ≡ stopped accounting_failed)
          × ((settled_with deps opts day now v reserving o).0.ledger
              ≡ ledger_after reserving.ledger o)
    settled_with-Files v db (done u db') = (λ e. cc, refl)
    settled_with-Files v db (cost_cap_exceeded c d) = (λ e. refl, refl)
    settled_with-Files v db thrown = (λ e. refl, refl)

    after_reply-Files :
        (reply : Reply V)
        → Files w.ledger (
            after_reply deps opts day now p r
              (handle day p model opts.role maximum w.ledger h)
              reserving
              reply)
    after_reply-Files (replied v i o) =
        let cost = cost_of deps opts day now p r i o in
        let out = settle (handle day p model opts.role maximum w.ledger h) cost reserving.ledger in
        let (stops, same) = settled_with-Files v w.ledger out in
        subst
          (λ db.
            IsFiled ((settled_with deps opts day now v reserving out).1 ≡ stopped accounting_failed)
              w.ledger db)
          (sym same)
          (settle-entry day p model opts.role maximum w.ledger h
            ((settled_with deps opts day now v reserving out).1 ≡ stopped accounting_failed) cost
            stops)
    after_reply-Files (provider_error kind) =
        forfeit-entry day p model opts.role maximum w.ledger h
          (failed kind ≡ stopped accounting_failed)
    after_reply-Files other_error =
        forfeit-entry day p model opts.role maximum w.ledger h
          (failed transport ≡ stopped accounting_failed)

    after_reserve-refused :
        (o : Outcome BudgetReservation)
        → is_done o ≡ false
        → Files w.ledger (after_reserve deps opts day now p messages r w o)
    after_reserve-refused (done handle db) e = cc
    after_reserve-refused (cost_cap_exceeded committed cap) e =
        IsFiled-none _ w.ledger _ (notify_cap-ledger deps opts day now committed w)
    after_reserve-refused thrown e = IsFiled-none _ w.ledger _ refl

    priced-Files : Files w.ledger (priced deps opts day now p messages w (some r))
    priced-Files = elim (reserve-cases day p model opts.role maximum deps.daily_cap_usd w.ledger) [
      | inl (at, within) ↦ rw at (after_reply-Files (opts.reply p messages))
      | inr (kept, refused) ↦
          after_reserve-refused (reserve day p model opts.role maximum deps.daily_cap_usd w.ledger)
            refused
    ]

  budgeted_call-Files :
      (p : String) (messages : List LlmMessage) (w : World)
      → Balanced w.ledger
      → Files w.ledger (budgeted_call deps opts day now p messages w)
  unfolding budgeted_call
  budgeted_call-Files p messages w h = elim (Option-cases (rate_for p (deps.model_for p))) [
    | inl unknown ↦ rw unknown (IsFiled-none _ w.ledger _ refl)
    | inr (r, e) ↦ rw e (priced-Files p messages r w h)
  ]

  abbrev FilesRun : Ledger → World × Structured P → Type κ
  FilesRun db out = IsFiled (out.1 ≡ gave_up accounting_failed) db out.0.ledger

  -- What the rest of the chain must keep.
  abbrev Keeps : Next deps opts day now → Type κ
  Keeps next =
      (w : World) (attempts : List Attempt)
      → Balanced w.ledger
      → Balanced (next w attempts).0.ledger × FilesRun w.ledger (next w attempts)

  module _ (p : String) (next : Next deps opts day now) (keeps : Keeps next) (w : World)
      (h : Balanced w.ledger) where
    abbrev KeepsRun : World × Structured P → Type κ
    KeepsRun out = Balanced out.0.ledger × FilesRun w.ledger out

    announced-KeepsRun :
        (attempts : List Attempt) (x : P)
        → KeepsRun (announced deps opts day now p next w attempts x)
    announced-KeepsRun [] x = (h, IsFiled-none _ w.ledger _ refl)
    announced-KeepsRun (a ∷ attempts) x = elim (Bool-cases deps.admin_reachable) [
      | inl reached ↦ simp reached ((h, IsFiled-none _ w.ledger _ refl))
      | inr lost ↦ simp lost (keeps w (attempt deps opts day now p schema (a ∷ attempts)) h)
    ]

    after_call-KeepsRun :
        (attempts : List Attempt) (c : Called V) (db : Ledger)
        → Files db (w, c)
        → Balanced (after_call deps opts day now p next attempts (w, c)).0.ledger
          × FilesRun db (after_call deps opts day now p next attempts (w, c))
    after_call-KeepsRun attempts (returned v) db f = elim (Option-cases (opts.validate v)) [
      | inl invalid ↦
          let rest = keeps w (attempt deps opts day now p schema attempts) h in
          rw invalid (rest.0, IsFiled-trans _ _ db w.ledger _ (λ e. cc) f rest.1)
      | inr (x, e) ↦
          let rest = announced-KeepsRun attempts x in
          rw e (rest.0, IsFiled-trans _ _ db w.ledger _ (λ e. cc) f rest.1)
    ]
    after_call-KeepsRun attempts (stopped s) db f = (
      h,
      record {
        added = f.added;
        grown = f.grown;
        shut = elim f.shut [ inl all ↦ inl all | inr e ↦ inr cc ];
      },
    )
    after_call-KeepsRun attempts (failed kind) db f =
        let rest = keeps w (attempt deps opts day now p kind attempts) h in
        (rest.0, IsFiled-trans _ _ db w.ledger _ (λ e. cc) f rest.1)

  try_chain-Keeps : (ps : List String) → Keeps (try_chain deps opts day now ps)
  unfolding try_chain
  try_chain-Keeps [] w attempts h = elim (Bool-cases deps.admin_reachable) [
    | inl reached ↦ simp reached ((h, IsFiled-none _ w.ledger _ refl))
    | inr lost ↦ simp lost ((h, IsFiled-none _ w.ledger _ refl))
  ]
  try_chain-Keeps (p ∷ ps) w attempts h =
      let messages = messages_for deps opts day now p in
      let called = budgeted_call deps opts day now p messages w in
      after_call-KeepsRun p (try_chain deps opts day now ps) (try_chain-Keeps ps) called.0
        (budgeted_call-Balanced deps opts day now p messages w h) attempts called.1 w.ledger
        (budgeted_call-Files p messages w h)

  -- Whatever the providers answer, a structured call on a balanced ledger leaves it balanced, changes
  -- no reservation that was there, and leaves none of its own open (each is settled or forfeited),
  -- unless it gives up because a settlement did not go through.
  pub call_structured-IsFiled :
      (w : World)
      → Balanced w.ledger
      → Balanced (call_structured deps opts day now w).0.ledger
        × IsFiled
            ((call_structured deps opts day now w).1 ≡ gave_up accounting_failed)
            w.ledger
            (call_structured deps opts day now w).0.ledger
  unfolding call_structured
  call_structured-IsFiled w h = try_chain-Keeps (chain deps opts day now) w [] h
