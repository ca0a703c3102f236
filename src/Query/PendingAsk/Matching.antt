-- ===== src/Query/PendingAsk/Matching.antt =====
-- Which option an answer names, in src/query/pending-ask.ts.
use agent_orchestrator.Base.{
  ℕ, ◌≤◌, ◌<◌, String, true, false, ◌&&◌, Option, some, none, List, [], ◌∷◌, ◌≡◌, ◌⊎◌, inl, inr,
  refl, arith, ltb, Bool-cases, All, All-imply,
}
use agent_orchestrator.Query.PendingAsk.{
  AskOption, JsText, normalize, is_filled, is_hit, label_length, match_from, match_option,
}

-- The option is one of the list's.
pub data Among (o : AskOption) : List AskOption → Type 0 where
  here : {os : List AskOption} → Among o (o ∷ os)
  there : {p : AskOption} {os : List AskOption} → Among o os → Among o (p ∷ os)

module _ (js : JsText) (answer : String) where
  -- No label of the list that the answer names is longer.
  abbrev pub NoLonger : ℕ → AskOption → Type 0
  NoLonger n o = is_hit js answer o ≡ true → label_length js o ≤ n

  -- What the loop ends with: the best so far, or an option of the list that is longer than it; and
  -- no label that the answer names is longer than the result's.
  abbrev Found : Option AskOption → ℕ → List AskOption → Option AskOption → Type 0
  Found best n os r =
      ((r ≡ best) × All (NoLonger n) os)
      ⊎ ((o : AskOption) × (r ≡ some o)
          × Among o os
          × (is_hit js answer o ≡ true)
          × (n < label_length js o)
          × All (NoLonger (label_length js o)) os)

  match_from-Found :
      (os : List AskOption) (best : Option AskOption) (n : ℕ)
      → Found best n os (match_from js answer best n os)
  unfolding match_from
  match_from-Found [] best n = inl (refl, tt)
  match_from-Found (o ∷ os) best n =
      elim (Bool-cases (is_hit js answer o && ltb n (label_length js o))) [
        | inl better ↦ rw better (elim (match_from-Found os (some o) (label_length js o)) [
          | inl (e, all) ↦ inr (
            o,
            e,
            here,
            ground (arith, better),
            ground (arith, better),
            ((λ _. omega arith), all),
          )
          | inr (p, e, among, hit, longer, all) ↦ inr (
            p,
            e,
            there among,
            hit,
            ground (arith, better, longer),
            ((λ _. omega (arith, longer)), all),
          )
        ])
        | inr worse ↦ rw worse (elim (match_from-Found os best n) [
          | inl (e, all) ↦ inl (e, ((λ hit. ground (arith, worse, hit)), all))
          | inr (p, e, among, hit, longer, all) ↦
              inr (p, e, there among, hit, longer, ((λ h. ground (arith, worse, h, longer)), all))
        ])
      ]

-- The option that an answer is matched with is one of those offered, the answer names its label, and
-- it names no longer one; where no option is matched, the answer is blank or names no label at all. A
-- label that is not empty has a length.
pub match_option-Longest :
    (js : JsText) (options : List AskOption) (text : String)
    → ((o : AskOption) → is_hit js (normalize js text) o ≡ true → 0 < label_length js o)
    → ((o : AskOption) × (match_option js options text ≡ some o)
        × Among o options
        × (is_hit js (normalize js text) o ≡ true)
        × All (NoLonger js (normalize js text) (label_length js o)) options)
      ⊎ ((match_option js options text ≡ none)
          × ((is_filled (normalize js text) ≡ false)
              ⊎ All (λ o. is_hit js (normalize js text) o ≡ false) options))
unfolding match_option
match_option-Longest js options text measured = elim (Bool-cases (is_filled (normalize js text))) [
  | inr blank ↦ inr (rw blank refl, inl blank)
  | inl filled ↦ rw filled (elim (match_from-Found js (normalize js text) options none 0) [
    | inl (e, all) ↦ inr (
      e,
      inr (
          All-imply (NoLonger js (normalize js text) 0)
            (λ o. is_hit js (normalize js text) o ≡ false)
            (λ o short. ground (arith, short, measured o)) options all),
    )
    | inr (o, e, among, hit, longer, all) ↦ inl (o, e, among, hit, all)
  ])
]
