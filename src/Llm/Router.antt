-- ===== src/Llm/Router.antt =====
-- src/adapters/llm/llm-router.ts: the chain of providers, the budgeted call of one of them, and the
-- structured call that fails over along the chain. A provider's client, the size of a request and the
-- validation of an answer are parameters; a call runs within one day, at one instant. The kinds of
-- error are those of src/adapters/llm/errors.ts.
pub mod Accounts
pub mod Filing
pub mod Outcomes
pub mod Chains
mod Tests
use agent_orchestrator.Base.{
  ℕ, String, Bool, true, false, not, ◌&&◌, ◌||◌, Option, some, none, List, [], ◌∷◌, ◌++◌, map,
  str_eq, ◌==◌, leb, if◌then◌else◌, any, select, is_some, has_id, get_or_else,
}
use agent_orchestrator.Llm.Budget.{
  Ledger, Day, Cost, BudgetReservation, Outcome, done, cost_cap_exceeded, thrown, reserve, settle,
  forfeit,
}
use agent_orchestrator.Llm.Pricing.{Rate, rate_for, cost_usd, maximum_cost_usd}

pub data LlmErrorKind : Type 0 where
  auth rate server schema transport config : LlmErrorKind

pub kind_for_status : ℕ → Option LlmErrorKind
kind_for_status status =
    if status == 401 || status == 403
    then some auth
    else (if status == 429
        then some rate
        else (if leb 500 status then some server else (if leb 400 status then some auth else none)))

pub record LlmMessage : Type 0 where
  pub role : String
  pub content : String
  pub images : List String

abbrev pub has_any : List String → Bool
has_any [] = false
has_any (x ∷ xs) = true

pub strip_images : List LlmMessage → List LlmMessage
strip_images = map {A = LlmMessage} (λ m. record m { images = [] })

-- LlmRouterDeps for one role: `preferred` is `providerForRole(role) ?? defaultProvider`, `known` tells
-- the names in `providers`, and `admin_reachable` whether `notifyAdmin` goes through.
pub record LlmRouterDeps : Type 0 where
  pub known : String → Bool
  pub supports_vision : String → Bool
  pub preferred : String
  pub fallback_chain : List String
  pub model_for : String → String
  pub daily_cap_usd : ℕ
  pub admin_reachable : Bool

abbrev pub unseen : List String → String → Bool
unseen seen p = not (any (str_eq p) seen)

abbrev pub keep_known : (String → Bool) → (seen : List String) → List String → List String
keep_known known seen [] = []
keep_known known seen (p ∷ ps) =
    let new = known p && unseen seen p in
    let rest = keep_known known (if new then p ∷ seen else seen) ps in
    if new then p ∷ rest else rest

pub chain_for : LlmRouterDeps → List String
chain_for deps = keep_known deps.known [] (deps.preferred ∷ deps.fallback_chain)

pub prefer_vision : (String → Bool) → List String → List String
prefer_vision supports_vision chain =
    select supports_vision chain ++ select (λ p. not (supports_vision p)) chain

pub record Attempt : Type 0 where
  pub provider : String
  pub kind : LlmErrorKind

pub data Notice : Type 0 where
  cap_reached : (committed cap : ℕ) → Notice
  failed_over : (provider : String) → List Attempt → Notice
  failed_on_all : List Attempt → Notice

-- `cap_notified_for` is the day of `capNotifiedFor`.
pub record World : Type 0 where
  pub ledger : Ledger
  pub cap_notified_for : Option ℕ
  pub notices : List Notice

-- What a provider's client settles with: a value and its usage, an LlmProviderError, or another error.
pub data Reply {ℓ} (V : Type ℓ) : Type ℓ where
  replied : V → (input_tokens output_tokens : ℕ) → Reply V
  provider_error : LlmErrorKind → Reply V
  other_error : Reply V

-- Why a call is given up without another provider: CostCapExceeded, UnknownLlmPricingError or
-- LlmBudgetAccountingError.
pub data Stop : Type 0 where
  cap_exceeded unknown_pricing accounting_failed : Stop

pub data Called {ℓ} (V : Type ℓ) : Type ℓ where
  returned : V → Called V
  stopped : Stop → Called V
  failed : LlmErrorKind → Called V

pub data Structured {ℓ} (P : Type ℓ) : Type ℓ where
  parsed : P → Structured P
  gave_up : Stop → Structured P
  all_providers_failed : List Attempt → Structured P
  notice_failed : Structured P

-- The options of a structured call.
pub record Opts {ℓ κ} (V : Type ℓ) (P : Type κ) : Type (ℓ ⊔ κ) where
  pub role : String
  pub messages : List LlmMessage
  pub max_tokens : ℕ
  pub validate : V → Option P
  pub customer_id : Option String
  pub request_bytes : String → List LlmMessage → ℕ
  pub reply : String → List LlmMessage → Reply V

module _ {ℓ κ} {V : Type ℓ} {P : Type κ} (deps : LlmRouterDeps) (opts : Opts V P) (day : Day)
    (now : ℕ) where
  abbrev pub notify : Notice → World → World
  notify n w = record w { notices = w.notices ++ n ∷ [] }

  -- What `notifyCap` does, and the error that the caller of `budgetedCall` then sees.
  pub notify_cap : (committed : ℕ) → World → World × Called V
  notify_cap committed w =
      if has_id w.cap_notified_for day.date
      then (w, stopped cap_exceeded)
      else (let marked = record w { cap_notified_for = some day.date } in
          if deps.admin_reachable
          then (notify (cap_reached committed deps.daily_cap_usd) marked, stopped cap_exceeded)
          else (marked, failed transport))

  abbrev pub cost_of : String → Rate → (input_tokens output_tokens : ℕ) → Cost
  cost_of p r i o = record {
    created_at = now;
    provider = p;
    model = deps.model_for p;
    role = opts.role;
    customer_id = opts.customer_id;
    input_tokens = i;
    output_tokens = o;
    cost_usd = cost_usd r i o;
  }

  abbrev pub settled_with : V → World → Outcome (Unit {0}) → World × Called V
  settled_with v w (done u db) = (record w { ledger = db }, returned v)
  settled_with v w (cost_cap_exceeded committed cap) = (w, stopped accounting_failed)
  settled_with v w thrown = (w, stopped accounting_failed)

  abbrev forfeited : BudgetReservation → LlmErrorKind → World → World × Called V
  forfeited handle kind w = (record w { ledger = forfeit handle w.ledger }, failed kind)

  abbrev pub after_reply : String → Rate → BudgetReservation → World → Reply V → World × Called V
  after_reply p r handle w (replied v i o) =
      settled_with v w (settle handle (cost_of p r i o) w.ledger)
  after_reply p r handle w (provider_error kind) = forfeited handle kind w
  after_reply p r handle w other_error = forfeited handle transport w

  abbrev pub after_reserve :
      String → List LlmMessage → Rate → World → Outcome BudgetReservation → World × Called V
  after_reserve p messages r w (done handle db) =
      after_reply p r handle (record w { ledger = db }) (opts.reply p messages)
  after_reserve p messages r w (cost_cap_exceeded committed cap) = notify_cap committed w
  after_reserve p messages r w thrown = (w, failed transport)

  abbrev pub priced : String → List LlmMessage → World → Option Rate → World × Called V
  priced p messages w none = (w, stopped unknown_pricing)
  priced p messages w (some r) = after_reserve p messages r w (
      reserve day p (deps.model_for p) opts.role
        (maximum_cost_usd r (opts.request_bytes p messages) opts.max_tokens) deps.daily_cap_usd
        w.ledger)

  pub budgeted_call : String → List LlmMessage → World → World × Called V
  budgeted_call p messages w = priced p messages w (rate_for p (deps.model_for p))

  abbrev pub has_images : Bool
  has_images = any (λ m. has_any m.images) opts.messages

  abbrev pub messages_for : String → List LlmMessage
  messages_for p =
      if has_images && not (deps.supports_vision p)
      then strip_images opts.messages
      else opts.messages

  abbrev pub Next : Type κ
  Next = World → List Attempt → World × Structured P

  abbrev pub attempt : String → LlmErrorKind → List Attempt → List Attempt
  attempt p kind attempts = attempts ++ record { provider = p; kind = kind } ∷ []

  -- A notice that does not go through is caught with the validation.
  abbrev pub announced : String → Next → World → List Attempt → P → World × Structured P
  announced p next w [] x = (w, parsed x)
  announced p next w (a ∷ attempts) x =
      if deps.admin_reachable
      then (notify (failed_over p (a ∷ attempts)) w, parsed x)
      else next w (attempt p schema (a ∷ attempts))

  abbrev pub validated : String → Next → World → List Attempt → Option P → World × Structured P
  validated p next w attempts none = next w (attempt p schema attempts)
  validated p next w attempts (some x) = announced p next w attempts x

  abbrev pub after_call : String → Next → List Attempt → World × Called V → World × Structured P
  after_call p next attempts (w, returned v) = validated p next w attempts (opts.validate v)
  after_call p next attempts (w, stopped s) = (w, gave_up s)
  after_call p next attempts (w, failed kind) = next w (attempt p kind attempts)

  -- The loop over the chain, with the attempts that failed so far.
  pub try_chain : List String → World → List Attempt → World × Structured P
  try_chain [] w attempts =
      if deps.admin_reachable
      then (notify (failed_on_all attempts) w, all_providers_failed attempts)
      else (w, notice_failed)
  try_chain (p ∷ ps) w attempts =
      after_call p (try_chain ps) attempts (budgeted_call p (messages_for p) w)

  abbrev pub chain : List String
  chain = if has_images then prefer_vision deps.supports_vision (chain_for deps) else chain_for deps

  pub call_structured : World → World × Structured P
  call_structured w = try_chain chain w []
