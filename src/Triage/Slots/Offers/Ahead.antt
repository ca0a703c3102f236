-- ===== src/Triage/Slots/Offers/Ahead.antt =====
-- Counting what the cursor of generateSlots in src/triage/meeting-slots.ts has not passed yet.
use agent_orchestrator.Base.{
  ℕ, ◌≤◌, ◌<◌, Bool, true, false, some, List, [], ◌∷◌, ◌≡◌, arith, inl, inr, Bool-cases, select,
  first, length,
}

-- How many of a list are still ahead of an instant, for a test that fails for good once it fails.
module _ {A : Type 0} (ahead : ℕ → A → Bool)
    (gone : (c d : ℕ) (x : A) → c ≤ d → ahead d x ≡ true → ahead c x ≡ true) (c d : ℕ)
    (le : c ≤ d) where
  pub count_falls : (xs : List A) → length (select (ahead d) xs) ≤ length (select (ahead c) xs)
  count_falls [] = omega arith
  count_falls (x ∷ xs) = ground (arith, count_falls xs, gone c d x le)

  pub count_drops :
      (hit : A → Bool) (xs : List A) {b : A}
      → first (select hit xs) ≡ some b
      → ahead c b ≡ true
      → ahead d b ≡ false
      → length (select (ahead d) xs) < length (select (ahead c) xs)
  count_drops hit [] e now_ahead passed = cc
  count_drops hit (x ∷ xs) {b} e now_ahead passed = elim (Bool-cases (hit x)) [
    | inl this ↦ ground (arith, this, e, now_ahead, passed, count_falls xs)
    | inr other ↦
        ground (arith, gone c d x le, count_drops hit xs {b = b} (rw other at e) now_ahead passed)
  ]

-- What was selected passes the test.
pub selected_passes :
    {A : Type 0} (p : A → Bool) (xs : List A) {b : A} → first (select p xs) ≡ some b → p b ≡ true
selected_passes p [] e = cc
selected_passes p (x ∷ xs) {b} e = elim (Bool-cases (p x)) [
  | inl this ↦ ground (arith, this, e)
  | inr other ↦ selected_passes p xs {b = b} (rw other at e)
]
