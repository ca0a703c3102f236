-- ===== src/FounderApp/CalendarLayout/Lanes.antt =====
-- The lanes of one cluster in packColumns of app/src/lib/calendarLayout.ts.
use native.Mathlib.Numerals.{add-one}
use agent_orchestrator.Base.{
  ℕ, zero, suc, ◌≤◌, ◌<◌, false, Option, some, none, List, [], ◌∷◌, map, ◌≡◌, ◌∙◌, refl, ap, arith,
  inl, inr, leb, ◌==◌, Bool-cases, length, All, All-imply,
}
use agent_orchestrator.FounderApp.CalendarLayout.{Span, take_lane, lane_of}

-- The end of a lane, if it is open.
abbrev pub end_of : List ℕ → ℕ → Option ℕ
end_of [] i = none
end_of (x ∷ xs) zero = some x
end_of (x ∷ xs) (suc i) = end_of xs i

-- The lane that is taken was free or is new, it ends with the item then, and the others stay.
record IsTaken (s e : ℕ) (ends : List ℕ) (lane : ℕ) (after : List ℕ) : Type 0 where
  was_free : (v : ℕ) → end_of ends lane ≡ some v → v ≤ s
  ends_now : end_of after lane ≡ some e
  others : (i : ℕ) → (i == lane) ≡ false → end_of after i ≡ end_of ends i
  within : lane < length after
  kept : length ends ≤ length after

first-IsTaken : (s e end : ℕ) (ends : List ℕ) → end ≤ s → IsTaken s e (end ∷ ends) 0 (e ∷ ends)
first-IsTaken s e end ends free = record {
  was_free = λ v h. ground (arith, h, free);
  ends_now = refl;
  others = rest;
  within = omega arith;
  kept = omega arith;
}
  where
    rest : (i : ℕ) → (i == 0) ≡ false → end_of (e ∷ ends) i ≡ end_of (end ∷ ends) i
    rest zero h = cc
    rest (suc i) h = refl

later-IsTaken :
    (s e end lane : ℕ) (ends after : List ℕ)
    → IsTaken s e ends lane after
    → IsTaken s e (end ∷ ends) (suc lane) (end ∷ after)
later-IsTaken s e end lane ends after taken = record {
  was_free = taken.was_free;
  ends_now = taken.ends_now;
  others = rest;
  within = omega (arith, taken.within);
  kept = omega (arith, taken.kept);
}
  where
    rest : (i : ℕ) → (i == suc lane) ≡ false → end_of (end ∷ after) i ≡ end_of (end ∷ ends) i
    rest zero h = refl
    rest (suc i) h = taken.others i (ground (arith, h))

take_lane-IsTaken :
    (s e : ℕ) (ends : List ℕ) → IsTaken s e ends (take_lane s e ends).0 (take_lane s e ends).1
unfolding take_lane
take_lane-IsTaken s e [] = record {
  was_free = λ v h. cc;
  ends_now = refl;
  others = not_first;
  within = omega arith;
  kept = omega arith;
}
  where
    not_first : (i : ℕ) → (i == 0) ≡ false → end_of (e ∷ []) i ≡ none
    not_first zero h = cc
    not_first (suc i) h = refl
take_lane-IsTaken s e (end ∷ ends) = elim (Bool-cases (leb end s)) [
  | inl free ↦ rw free (first-IsTaken s e end ends (ground (arith, free)))
  | inr busy ↦
      rw (busy, add-one (take_lane s e ends).0)
        (later-IsTaken s e end (take_lane s e ends).0 ends (take_lane s e ends).1
          (take_lane-IsTaken s e ends))
]

pub All-both {ℓ} :
    {A : Type ℓ} (P Q R : A → Type 0)
    → ((x : A) → P x → Q x → R x)
    → (xs : List A) → All P xs
    → All Q xs
    → All R xs
All-both P Q R f [] p q = tt
All-both P Q R f (x ∷ xs) p q = (f x p.0 q.0, All-both P Q R f xs p.1 q.1)

module _ {ℓ} {T : Type ℓ} (span : T → Span) where
  abbrev pub StartsFrom : ℕ → T → Type 0
  StartsFrom t it = t ≤ (span it).s

  abbrev pub Sorted : List T → Type 0
  Sorted [] = Unit
  Sorted (x ∷ xs) = All (StartsFrom (span x).s) xs × Sorted xs

  abbrev pub Fits : List ℕ → T × ℕ → Type 0
  Fits ends (it, lane) = (v : ℕ) → end_of ends lane ≡ some v → v ≤ (span it).s

  abbrev pub Clear : T × ℕ → T × ℕ → Type 0
  Clear (a, i) (b, j) = i ≡ j → (span a).e ≤ (span b).s

  abbrev pub AllClear : List (T × ℕ) → Type 0
  AllClear [] = Unit
  AllClear (x ∷ xs) = All (Clear x) xs × AllClear xs

  pub lane_of-All :
      (P : T → Type 0) (ends : List ℕ) (its : List T)
      → All P its
      → All (λ y. P y.0) (lane_of span ends its).0
  unfolding lane_of
  lane_of-All P ends [] h = tt
  lane_of-All P ends (it ∷ its) h =
      (h.0, lane_of-All P (take_lane (span it).s (span it).e ends).1 its h.1)

  pub lane_of-items :
      (ends : List ℕ) (its : List T) → map (λ y. y.0) (lane_of span ends its).0 ≡ its
  unfolding lane_of
  lane_of-items ends [] = refl
  lane_of-items ends (it ∷ its) =
      ap (λ xs. it ∷ xs) (lane_of-items (take_lane (span it).s (span it).e ends).1 its)

  pub lane_of-AllClear :
      (ends : List ℕ) (its : List T)
      → Sorted its
      → All (Fits ends) (lane_of span ends its).0
        × AllClear (lane_of span ends its).0
        × All (λ y. y.1 < length (lane_of span ends its).1) (lane_of span ends its).0
        × (length ends ≤ length (lane_of span ends its).1)
  unfolding lane_of
  lane_of-AllClear ends [] h = (tt, tt, tt, omega arith)
  lane_of-AllClear ends (it ∷ its) h =
      let s = (span it).s in
      let e = (span it).e in
      let lane = (take_lane s e ends).0 in
      let after = (take_lane s e ends).1 in
      let taken = take_lane-IsTaken s e ends in
      let (fits, clear, within, longer) = lane_of-AllClear after its h.1 in
      let laned = (lane_of span after its).0 in
      let later = lane_of-All (StartsFrom s) after its h.0 in
      (
        (
          taken.was_free,
          All-both (Fits after) (λ y. StartsFrom s y.0) (Fits ends)
              (λ y fit from v at. elim (Bool-cases (y.1 == lane)) [
                | inl same ↦ omega (arith, from, taken.was_free v (ground (arith, same, at)))
                | inr other ↦ fit v (taken.others y.1 other ∙ at)
              ])
              laned fits later,
        ),
        (
          All-imply (Fits after) (Clear (it, lane))
              (λ y fit same. fit e (ground (arith, same, taken.ends_now))) laned fits,
          clear,
        ),
        (omega (arith, taken.within, longer), within),
        omega (arith, taken.kept, longer),
      )
