-- ===== src/Llm/Router/Tests.antt =====
-- A structured call of src/adapters/llm/llm-router.ts that fails over to its second provider.
use agent_orchestrator.Base.{ℕ, true, some, none, [], ◌∷◌, ◌≡◌, refl, str_eq, if◌then◌else◌}
use agent_orchestrator.Llm.Budget.{Ledger, Day, reserve, settle, forfeit}
use agent_orchestrator.Llm.Budget.Reserved.{Balanced}
use agent_orchestrator.Llm.Pricing.{rate_for, maximum_cost_usd, cost_usd}
use agent_orchestrator.Llm.Router.{
  kind_for_status, auth, rate, LlmRouterDeps, World, replied, provider_error, server, Opts, parsed,
  gave_up, accounting_failed, chain, chain_for, try_chain, budgeted_call, call_structured,
}
use agent_orchestrator.Llm.Router.Filing.{IsFiled, call_structured-IsFiled}
use agent_orchestrator.Llm.Router.Chains.{NoRepeat}
use agent_orchestrator.Llm.Router.Outcomes.{Explained, call_structured-Explained}

abbrev today : Day
today = record { date = 20; begins = 1000 }

abbrev deps : LlmRouterDeps
deps = record {
  known = λ p. true;
  supports_vision = λ p. str_eq p "anthropic";
  preferred = "openai";
  fallback_chain = "anthropic" ∷ "openai" ∷ [];
  model_for = λ p. if str_eq p "openai" then "gpt-4.1" else "claude-haiku-4-5";
  daily_cap_usd = 5000000;
  admin_reachable = true;
}

abbrev opts : Opts ℕ ℕ
opts = record {
  role = "classify";
  messages = record { role = "user"; content = "hello"; images = [] } ∷ [];
  max_tokens = 256;
  validate = λ v. some v;
  customer_id = none;
  request_bytes = λ p ms. 500;
  reply = λ p ms. if str_eq p "openai" then provider_error server else replied 7 300 20;
}

abbrev empty_ledger : Ledger
empty_ledger = record { budgets = []; reservations = []; costs = []; next_id = 1 }

abbrev world : World
world = record { ledger = empty_ledger; cap_notified_for = none; notices = [] }

empty-Balanced : Balanced empty_ledger
empty-Balanced = record { unique = tt; fresh = λ k above. refl; balance = λ d. refl }

call_structured-IsFiled_example :
    Balanced (call_structured deps opts today 2000 world).0.ledger
    × IsFiled
        ((call_structured deps opts today 2000 world).1 ≡ gave_up accounting_failed)
        empty_ledger
        (call_structured deps opts today 2000 world).0.ledger
call_structured-IsFiled_example = call_structured-IsFiled deps opts today 2000 world empty-Balanced

call_structured-Explained_example :
    NoRepeat (chain deps opts today 2000)
    × Explained deps opts today 2000 []
        (chain deps opts today 2000)
        (call_structured deps opts today 2000 world).0.ledger
        (call_structured deps opts today 2000 world).1
call_structured-Explained_example = call_structured-Explained deps opts today 2000 world

second_answers : (call_structured deps opts today 2000 world).1 ≡ parsed 7
unfolding call_structured try_chain budgeted_call chain_for rate_for maximum_cost_usd cost_usd
    reserve settle forfeit
second_answers = refl

kinds :
    (kind_for_status 429 ≡ some rate)
    × (kind_for_status 404 ≡ some auth)
    × (kind_for_status 503 ≡ some server)
    × (kind_for_status 204 ≡ none)
unfolding kind_for_status
kinds = (refl, refl, refl, refl)
