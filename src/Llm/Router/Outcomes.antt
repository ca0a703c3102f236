-- ===== src/Llm/Router/Outcomes.antt =====
-- What a structured call of src/adapters/llm/llm-router.ts answers, and along which chain.
use mathlib.Core.List.{append_assoc, append-nil}
use agent_orchestrator.Base.{
  ℕ, String, false, Option, some, none, List, [], ◌∷◌, ◌++◌, map, ◌≡◌, refl, sym, ap, ◌∙◌, inl, inr,
  Bool-cases, Option-cases, has_id,
}
use agent_orchestrator.Llm.Budget.{
  Ledger, Day, BudgetReservation, Outcome, done, cost_cap_exceeded, thrown, reserve, settle,
}
use agent_orchestrator.Llm.Budget.Reserved.{is_done}
use agent_orchestrator.Llm.Pricing.{Rate, rate_for, maximum_cost_usd}
use agent_orchestrator.Llm.Router.Chains.{NoRepeat, chain-NoRepeat}
use agent_orchestrator.Llm.Router.{
  LlmErrorKind, transport, Stop, cap_exceeded, unknown_pricing, accounting_failed, LlmMessage,
  LlmRouterDeps, World, Attempt, attempt, schema, Reply, replied, provider_error, other_error,
  Called, returned, stopped, failed, Structured, parsed, gave_up, all_providers_failed,
  notice_failed, Opts, notify_cap, cost_of, settled_with, after_reply, after_reserve, priced,
  budgeted_call, messages_for, Next, after_call, announced, try_chain, chain, call_structured,
}

abbrev provider_of : Attempt → String
provider_of a = a.provider

map-append {ℓ κ} :
    {A : Type ℓ} {B : Type κ} (f : A → B) (xs ys : List A) → map f (xs ++ ys) ≡ map f xs ++ map f ys
map-append f [] ys = refl
map-append f (x ∷ xs) ys = ap (λ zs. f x ∷ zs) (map-append f xs ys)

module _ {ℓ κ} {V : Type ℓ} {P : Type κ} (deps : LlmRouterDeps) (opts : Opts V P) (day : Day)
    (now : ℕ) where
  -- The provider's answer to this call passes the validation as `x`.
  abbrev pub Answers : String → P → Type (ℓ ⊔ κ)
  Answers p x =
      (v : V) × (i : ℕ) × (o : ℕ) × (opts.reply p (messages_for deps opts day now p)
        ≡ replied v i o)
      × (opts.validate v ≡ some x)

  abbrev pub reserve_for : String → List LlmMessage → Rate → Ledger → Outcome BudgetReservation
  reserve_for p messages r db =
      reserve day p (deps.model_for p) opts.role
        (maximum_cost_usd r (opts.request_bytes p messages) opts.max_tokens) deps.daily_cap_usd db

  -- Why the call of `p` gives the whole call up, with the ledger it leaves: the reservation is above
  -- the cap, the model has no price, or the provider replied and the settlement of the reservation
  -- that was made for it does not go through.
  pub data Halts (p : String) (messages : List LlmMessage) (db : Ledger) : Stop → Type ℓ where
    over_cap :
        (r : Rate) (committed cap : ℕ)
        → rate_for p (deps.model_for p) ≡ some r
        → reserve_for p messages r db ≡ cost_cap_exceeded committed cap
        → Halts p messages db cap_exceeded
    unpriced : rate_for p (deps.model_for p) ≡ none → Halts p messages db unknown_pricing
    unsettled :
        (r : Rate) (before : Ledger) (handle : BudgetReservation) (v : V) (i o : ℕ)
        → rate_for p (deps.model_for p) ≡ some r
        → reserve_for p messages r before ≡ done handle db
        → opts.reply p messages ≡ replied v i o
        → is_done (settle handle (cost_of deps opts day now p r i o) db) ≡ false
        → Halts p messages db accounting_failed

  -- A result, with the ledger after it: the validated answer of a provider of the chain, a provider of
  -- the chain whose call gives up, or the failure of every provider, in the chain's order after those
  -- tried before.
  pub data Explained (tried ps : List String) (db : Ledger) : Structured P → Type (ℓ ⊔ κ) where
    answered :
        (before : List String) (p : String) (after : List String) (x : P)
        → ps ≡ before ++ p ∷ after
        → Answers p x
        → Explained tried ps db (parsed x)
    halted :
        (before : List String) (p : String) (after : List String) (s : Stop)
        → ps ≡ before ++ p ∷ after
        → Halts p (messages_for deps opts day now p) db s
        → Explained tried ps db (gave_up s)
    exhausted :
        (attempts : List Attempt)
        → map provider_of attempts ≡ tried ++ ps
        → Explained tried ps db (all_providers_failed attempts)
    unannounced : deps.admin_reachable ≡ false → Explained tried ps db notice_failed

  -- A value that a call returns is what the provider replied, and a call that gives up has its reason.
  data Told (p : String) (messages : List LlmMessage) (db : Ledger) : Called V → Type ℓ where
    told :
        (v : V) (i o : ℕ) → opts.reply p messages ≡ replied v i o → Told p messages db (returned v)
    stops : (s : Stop) → Halts p messages db s → Told p messages db (stopped s)
    fails : (kind : LlmErrorKind) → Told p messages db (failed kind)

  -- The world and the outcome of a call of `p`.
  abbrev Tells : String → List LlmMessage → World × Called V → Type ℓ
  Tells p messages called = Told p messages called.0.ledger called.1

  module _ (p : String) (messages : List LlmMessage) (r : Rate)
      (known : rate_for p (deps.model_for p) ≡ some r) where
    module _ (before : Ledger) (handle : BudgetReservation) (w : World)
        (made : reserve_for p messages r before ≡ done handle w.ledger) where
      settled_with-Told :
          (v : V) (i o : ℕ)
          → opts.reply p messages ≡ replied v i o
          → (out : Outcome (Unit {0}))
          → settle handle (cost_of deps opts day now p r i o) w.ledger ≡ out
          → Tells p messages (settled_with deps opts day now v w out)
      settled_with-Told v i o e (done u db) at = told v i o e
      settled_with-Told v i o e (cost_cap_exceeded c d) at =
          stops accounting_failed (unsettled r before handle v i o known made e (ap is_done at))
      settled_with-Told v i o e thrown at =
          stops accounting_failed (unsettled r before handle v i o known made e (ap is_done at))

      after_reply-Told :
          (reply : Reply V)
          → opts.reply p messages ≡ reply
          → Tells p messages (after_reply deps opts day now p r handle w reply)
      after_reply-Told (replied v i o) e =
          settled_with-Told v i o e (settle handle (cost_of deps opts day now p r i o) w.ledger)
            refl
      after_reply-Told (provider_error kind) e = fails kind
      after_reply-Told other_error e = fails transport

    notify_cap-Told :
        (committed cap : ℕ) (w : World)
        → reserve_for p messages r w.ledger ≡ cost_cap_exceeded committed cap
        → Tells p messages (notify_cap deps opts day now committed w)
    unfolding notify_cap
    notify_cap-Told committed cap w at =
        let refused : Halts p messages w.ledger cap_exceeded = over_cap r committed cap known at in
        elim (Bool-cases (has_id w.cap_notified_for day.date)) [
          | inl already ↦ rw already (stops cap_exceeded refused)
          | inr new ↦ elim (Bool-cases deps.admin_reachable) [
            | inl reached ↦ simp (new, reached) (stops cap_exceeded refused)
            | inr lost ↦ simp (new, lost) (fails transport)
          ]
        ]

    after_reserve-Told :
        (w : World) (o : Outcome BudgetReservation)
        → reserve_for p messages r w.ledger ≡ o
        → Tells p messages (after_reserve deps opts day now p messages r w o)
    after_reserve-Told w (done handle db) at =
        after_reply-Told w.ledger handle (record w { ledger = db }) at (opts.reply p messages) refl
    after_reserve-Told w (cost_cap_exceeded committed cap) at = notify_cap-Told committed cap w at
    after_reserve-Told w thrown at = fails transport

  priced-Told :
      (p : String) (messages : List LlmMessage) (w : World) (r : Option Rate)
      → rate_for p (deps.model_for p) ≡ r
      → Tells p messages (priced deps opts day now p messages w r)
  priced-Told p messages w none e = stops unknown_pricing (unpriced e)
  priced-Told p messages w (some r) e =
      after_reserve-Told p messages r e w (reserve_for p messages r w.ledger) refl

  budgeted_call-Told :
      (p : String) (messages : List LlmMessage) (w : World)
      → Tells p messages (budgeted_call deps opts day now p messages w)
  unfolding budgeted_call
  budgeted_call-Told p messages w = priced-Told p messages w (rate_for p (deps.model_for p)) refl

  -- What the rest of the chain, after `p` was tried too, explains.
  later :
      (tried ps : List String) (p : String) {db : Ledger} {r : Structured P}
      → Explained (tried ++ p ∷ []) ps db r
      → Explained tried (p ∷ ps) db r
  later tried ps p (answered before q after x e h) =
      answered (p ∷ before) q after x (ap (λ qs. p ∷ qs) e) h
  later tried ps p (halted before q after s e h) =
      halted (p ∷ before) q after s (ap (λ qs. p ∷ qs) e) h
  later tried ps p (exhausted attempts e) = exhausted attempts (e ∙ append_assoc tried (p ∷ []) ps)
  later tried ps p (unannounced lost) = unannounced lost

  attempt-tried :
      (p : String) (kind : LlmErrorKind) (attempts : List Attempt) {tried : List String}
      → map provider_of attempts ≡ tried
      → map provider_of (attempt deps opts day now p kind attempts) ≡ tried ++ p ∷ []
  attempt-tried p kind attempts e =
      map-append provider_of attempts (record { provider = p; kind = kind } ∷ [])
      ∙ ap (λ ts. ts ++ p ∷ []) e

  abbrev ExplainsRun : List String → List String → World × Structured P → Type (ℓ ⊔ κ)
  ExplainsRun tried ps out = Explained tried ps out.0.ledger out.1

  abbrev Explains : List String → Next deps opts day now → Type (ℓ ⊔ κ)
  Explains ps next =
      (w : World) (attempts : List Attempt) (tried : List String)
      → map provider_of attempts ≡ tried
      → ExplainsRun tried ps (next w attempts)

  module _ (p : String) (ps : List String) (next : Next deps opts day now)
      (rest : Explains ps next) where
    passed_on :
        (kind : LlmErrorKind) (w : World) (attempts : List Attempt) (tried : List String)
        → map provider_of attempts ≡ tried
        → ExplainsRun tried (p ∷ ps) (next w (attempt deps opts day now p kind attempts))
    passed_on kind w attempts tried e = later tried ps p (
        rest w (attempt deps opts day now p kind attempts) (tried ++ p ∷ [])
          (attempt-tried p kind attempts e))

    announced-Explained :
        (w : World) (attempts : List Attempt) (tried : List String) (x : P)
        → map provider_of attempts ≡ tried
        → Answers p x
        → ExplainsRun tried (p ∷ ps) (announced deps opts day now p next w attempts x)
    announced-Explained w [] tried x e h = answered [] p ps x refl h
    announced-Explained w (a ∷ attempts) tried x e h = elim (Bool-cases deps.admin_reachable) [
      | inl reached ↦ simp reached (answered [] p ps x refl h)
      | inr lost ↦ simp lost (passed_on schema w (a ∷ attempts) tried e)
    ]

    after_call-Explained :
        (w : World) (attempts : List Attempt) (tried : List String) (c : Called V)
        → map provider_of attempts ≡ tried
        → Told p (messages_for deps opts day now p) w.ledger c
        → ExplainsRun tried (p ∷ ps) (after_call deps opts day now p next attempts (w, c))
    after_call-Explained w attempts tried (returned v) e (told _ i o replies) =
        elim (Option-cases (opts.validate v)) [
          | inl invalid ↦ rw invalid (passed_on schema w attempts tried e)
          | inr (x, valid) ↦
              rw valid (announced-Explained w attempts tried x e (v, i, o, replies, valid))
        ]
    after_call-Explained w attempts tried (stopped s) e (stops _ why) = halted [] p ps s refl why
    after_call-Explained w attempts tried (failed kind) e t = passed_on kind w attempts tried e

  try_chain-Explained : (ps : List String) → Explains ps (try_chain deps opts day now ps)
  unfolding try_chain
  try_chain-Explained [] w attempts tried e = elim (Bool-cases deps.admin_reachable) [
    | inl reached ↦ simp reached (exhausted attempts (e ∙ sym (append-nil tried)))
    | inr lost ↦ simp lost (unannounced lost)
  ]
  try_chain-Explained (p ∷ ps) w attempts tried e =
      let called = budgeted_call deps opts day now p (messages_for deps opts day now p) w in
      after_call-Explained p ps (try_chain deps opts day now ps) (try_chain-Explained ps) called.0
        attempts tried called.1 e (budgeted_call-Told p (messages_for deps opts day now p) w)

  -- A structured call answers with what the validation made of the reply of a provider in its chain,
  -- or it fails with an error that lists every provider of the chain in order, or the final notice
  -- could not be delivered, or it gives up at a provider of the chain: because in the ledger it leaves
  -- the reservation for that provider is above the cap, because its model has no price, or because it
  -- replied and its reservation could not be settled. No provider stands in the chain twice.
  pub call_structured-Explained :
      (w : World)
      → NoRepeat (chain deps opts day now)
        × Explained []
            (chain deps opts day now)
            (call_structured deps opts day now w).0.ledger
            (call_structured deps opts day now w).1
  unfolding call_structured
  call_structured-Explained w =
      (chain-NoRepeat deps opts day now, try_chain-Explained (chain deps opts day now) w [] [] refl)
