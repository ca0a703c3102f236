-- ===== src/Llm/Router/Chains.antt =====
-- The chain of providers of src/adapters/llm/llm-router.ts: no provider is called twice.
use text.Mathlib.TextPositions.{eq_refl}
use agent_orchestrator.Base.{
  ℕ, String, Bool, true, false, not, ◌&&◌, ◌||◌, List, [], ◌∷◌, ◌++◌, ◌≡◌, refl, arith, inl, inr,
  Bool-cases, any, str_eq, eq_iff, select,
}
use agent_orchestrator.Llm.Budget.{Day}
use agent_orchestrator.Llm.Router.{
  LlmRouterDeps, Opts, has_images, chain, unseen, keep_known, chain_for, prefer_vision,
}

abbrev pub among : String → List String → Bool
among q = any (str_eq q)

abbrev pub NoRepeat : List String → Type 0
NoRepeat [] = Unit
NoRepeat (p ∷ ps) = (among p ps ≡ false) × NoRepeat ps

unseen_apart :
    (q p : String) (seen : List String)
    → among q seen ≡ true
    → unseen seen p ≡ true
    → str_eq q p ≡ false
unseen_apart q p seen old new = elim (Bool-cases (str_eq q p)) [
  | inr apart ↦ apart
  | inl same ↦
      let at : q ≡ p = ground (arith, same, eq_iff q p) in ground (arith, new, rw at at old)
]

module _ (known : String → Bool) where
  keep_known-unseen :
      (seen ps : List String) (q : String)
      → among q seen ≡ true
      → among q (keep_known known seen ps) ≡ false
  keep_known-unseen seen [] q old = refl
  keep_known-unseen seen (p ∷ ps) q old = elim (Bool-cases (known p && unseen seen p)) [
    | inl new ↦
        let apart = unseen_apart q p seen old (ground (arith, new)) in
        rw (new, apart) (keep_known-unseen (p ∷ seen) ps q (ground (arith, old)))
    | inr skipped ↦ rw skipped (keep_known-unseen seen ps q old)
  ]

  keep_known-NoRepeat : (seen ps : List String) → NoRepeat (keep_known known seen ps)
  keep_known-NoRepeat seen [] = tt
  keep_known-NoRepeat seen (p ∷ ps) = elim (Bool-cases (known p && unseen seen p)) [
    | inl new ↦ rw new (
      keep_known-unseen (p ∷ seen) ps p (ground (arith, eq_refl p)),
      keep_known-NoRepeat (p ∷ seen) ps,
    )
    | inr skipped ↦ rw skipped (keep_known-NoRepeat seen ps)
  ]

among-append : (q : String) (ps qs : List String) → among q (ps ++ qs) ≡ (among q ps || among q qs)
among-append q [] qs = refl
among-append q (p ∷ ps) qs = ground (arith, among-append q ps qs)

module _ (v : String → Bool) where
  among-select :
      (q : String) (ps : List String) → among q ps ≡ false → among q (select v ps) ≡ false
  among-select q [] h = refl
  among-select q (p ∷ ps) h = ground (arith, h, among-select q ps)

  among-select_rest :
      (q : String) (ps : List String) → v q ≡ true → among q (select (λ p. not (v p)) ps) ≡ false
  among-select_rest q [] h = refl
  among-select_rest q (p ∷ ps) h = elim (Bool-cases (str_eq q p)) [
    | inl same ↦
        let at : q ≡ p = ground (arith, same, eq_iff q p) in
        let seen : v p ≡ true = rw at at h in rw seen (among-select_rest q ps h)
    | inr apart ↦ ground (arith, apart, among-select_rest q ps h)
  ]

select-NoRepeat : (v : String → Bool) (ps : List String) → NoRepeat ps → NoRepeat (select v ps)
select-NoRepeat v [] h = tt
select-NoRepeat v (p ∷ ps) h = elim (Bool-cases (v p)) [
  | inl kept ↦ rw kept (among-select v p ps h.0, select-NoRepeat v ps h.1)
  | inr dropped ↦ rw dropped (select-NoRepeat v ps h.1)
]

select-append-NoRepeat :
    (v : String → Bool) (ps qs : List String)
    → ((q : String) → v q ≡ true → among q qs ≡ false)
    → NoRepeat ps
    → NoRepeat qs
    → NoRepeat (select v ps ++ qs)
select-append-NoRepeat v [] qs apart h k = k
select-append-NoRepeat v (p ∷ ps) qs apart h k = elim (Bool-cases (v p)) [
  | inl kept ↦ rw kept (
    ground (arith, among-append p (select v ps) qs, among-select v p ps h.0, apart p kept),
    select-append-NoRepeat v ps qs apart h.1 k,
  )
  | inr dropped ↦ rw dropped (select-append-NoRepeat v ps qs apart h.1 k)
]

prefer_vision-NoRepeat :
    (v : String → Bool) (ps : List String) → NoRepeat ps → NoRepeat (prefer_vision v ps)
unfolding prefer_vision
prefer_vision-NoRepeat v ps h =
    select-append-NoRepeat v ps (select (λ p. not (v p)) ps)
      (λ q seen. among-select_rest v q ps seen) h (select-NoRepeat (λ p. not (v p)) ps h)

chain_for-NoRepeat : (deps : LlmRouterDeps) → NoRepeat (chain_for deps)
unfolding chain_for
chain_for-NoRepeat deps = keep_known-NoRepeat deps.known [] (deps.preferred ∷ deps.fallback_chain)

-- The chain of a structured call.
pub chain-NoRepeat {ℓ κ} :
    {V : Type ℓ} {P : Type κ} (deps : LlmRouterDeps) (opts : Opts V P) (day : Day) (now : ℕ)
    → NoRepeat (chain deps opts day now)
chain-NoRepeat deps opts day now = elim (Bool-cases (has_images deps opts day now)) [
  | inl pictures ↦
      rw pictures
        (prefer_vision-NoRepeat deps.supports_vision (chain_for deps) (chain_for-NoRepeat deps))
  | inr plain ↦ rw plain (chain_for-NoRepeat deps)
]
