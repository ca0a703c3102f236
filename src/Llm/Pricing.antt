-- ===== src/Llm/Pricing.antt =====
-- src/adapters/llm/pricing.ts. Rates are in cents per million tokens, and amounts in millionths of a
-- dollar, exactly: a cent per million tokens is a hundredth of a millionth per token.
use agent_orchestrator.Base.{
  ℕ, ◌+◌, ◌*◌, ◌/◌, String, Option, some, none, str_eq, max, if◌then◌else◌,
}

pub record Rate : Type 0 where
  pub in_cents : ℕ
  pub out_cents : ℕ

abbrev rate : ℕ → ℕ → Option Rate
rate i o = some (record { in_cents = i; out_cents = o })

abbrev anthropic : String → Option Rate
anthropic model =
    if str_eq model "claude-sonnet-5"
    then rate 300 1500
    else (if str_eq model "claude-haiku-4-5"
        then rate 100 500
        else (if str_eq model "claude-opus-4-8" then rate 500 2500 else none))

abbrev openai : String → Option Rate
openai model =
    if str_eq model "gpt-4.1"
    then rate 200 800
    else (if str_eq model "gpt-4.1-mini"
        then rate 40 160
        else (if str_eq model "text-embedding-3-small" then rate 2 0 else none))

abbrev deepseek : String → Option Rate
deepseek model = if str_eq model "deepseek-chat" then rate 27 110 else none

unfoldable pub rate_for : String → String → Option Rate
rate_for provider model =
    if str_eq provider "anthropic"
    then anthropic model
    else (if str_eq provider "openai"
        then openai model
        else (if str_eq provider "deepseek" then deepseek model else none))

abbrev hundredths : Rate → (input_tokens output_tokens : ℕ) → ℕ
hundredths r i o = i * r.in_cents + o * r.out_cents

-- Rounded to the nearest millionth, as toFixed(6) does.
unfoldable pub cost_usd : Rate → (input_tokens output_tokens : ℕ) → ℕ
cost_usd r i o = (hundredths r i o + 50) / 100

unfoldable pub maximum_cost_usd : Rate → (input_bytes max_tokens : ℕ) → ℕ
maximum_cost_usd r bytes max_tokens = max 1 ((hundredths r (bytes + 1024) max_tokens + 99) / 100)
