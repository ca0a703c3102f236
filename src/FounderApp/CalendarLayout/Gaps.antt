-- ===== src/FounderApp/CalendarLayout/Gaps.antt =====
-- What freeGaps of app/src/lib/calendarLayout.ts offers is free, and what it leaves out is too short.
use agent_orchestrator.Base.{
  ℕ, ◌+◌, ◌≤◌, ◌<◌, max, min, Bool, true, false, not, ◌&&◌, List, [], ◌∷◌, map, ◌≡◌, ◌∙◌, refl, sym,
  arith, inl, inr, ltb, leb, Bool-cases, select, any, any-order_by, Ordered, Ordered-order_by, All,
  All-order_by,
}
use agent_orchestrator.FounderApp.CalendarLayout.{Span, starts_first, clamped, gaps_from, free_gaps}

-- A span holds the minutes from its start up to its end, which is not in it.
abbrev pub holds : ℕ → Span → Bool
holds t b = leb b.s t && ltb t b.e

not_yet :
    (t : ℕ) (b : Span) (bs : List Span)
    → All (λ c. starts_first b c ≡ true) bs
    → t < b.s
    → any (holds t) bs ≡ false
not_yet t b [] h before = refl
not_yet t b (c ∷ cs) h before = ground (arith, h.0, not_yet t b cs h.1 before)

-- No span that is left starts after the end, unless the range is empty.
abbrev InRange : (low end : ℕ) → List Span → Type 0
InRange low end bs = All (λ b. b.s ≤ max low end) bs

gaps_from-any :
    (t low cursor end : ℕ) (bs : List Span)
    → low ≤ cursor
    → Ordered starts_first bs
    → InRange low end bs
    → any (holds t) (gaps_from cursor end bs)
      ≡ (leb cursor t && ltb t end && not (any (holds t) bs))
unfolding gaps_from
gaps_from-any t low cursor end [] le h r = ground arith
gaps_from-any t low cursor end (b ∷ bs) le h r = elim (Bool-cases (ltb cursor b.s)) [
  | inl gap ↦ rw gap (
      ground (
        arith,
        gap,
        gaps_from-any t low (max cursor b.e) end bs (omega (arith, le)) h.1 r.1,
        not_yet t b bs h.0,
        r.0,
      ))
  | inr joined ↦ rw joined (
      ground
        (arith, joined, gaps_from-any t low (max cursor b.e) end bs (omega (arith, le)) h.1 r.1))
]

clamped-InRange : (start end : ℕ) (busy : List Span) → InRange start end (clamped start end busy)
clamped-InRange start end busy =
    All-order_by starts_first (λ b. b.s ≤ max start end)
      (map {A = Span} (λ b. record { s = max start b.s; e = min end b.e })
        (select (λ b. ltb start b.e && ltb b.s end) busy))
      (each busy)
  where
    each :
        (bs : List Span)
        → InRange start end (
            map {A = Span}
              (λ b. record { s = max start b.s; e = min end b.e })
              (select (λ b. ltb start b.e && ltb b.s end) bs))
    each [] = tt
    each (b ∷ bs) = ground (arith, each bs)

any-clamped :
    (t start end : ℕ) (busy : List Span)
    → start ≤ t
    → t < end
    → any (holds t) (clamped start end busy) ≡ any (holds t) busy
any-clamped t start end busy from before =
    any-order_by starts_first (holds t) (
      map {A = Span} (λ b. record { s = max start b.s; e = min end b.e })
        (select (λ b. ltb start b.e && ltb b.s end) busy))
    ∙ each busy
  where
    each :
        (bs : List Span)
        → any (holds t) (
            map {A = Span}
              (λ b. record { s = max start b.s; e = min end b.e })
              (select (λ b. ltb start b.e && ltb b.s end) bs))
          ≡ any (holds t) bs
    each [] = refl
    each (b ∷ bs) = ground (arith, each bs)

any-long :
    (t : ℕ) (gs : List Span) → any (holds t) (select (λ g. leb (g.s + 0) g.e) gs) ≡ any (holds t) gs
any-long t [] = refl
any-long t (g ∷ gs) = ground (arith, any-long t gs)

select-longer :
    (n : ℕ) (gs : List Span)
    → select (λ g. leb (g.s + n) g.e) (select (λ g. leb (g.s + 0) g.e) gs)
      ≡ select (λ g. leb (g.s + n) g.e) gs
select-longer n [] = refl
select-longer n (g ∷ gs) = ground (arith, select-longer n gs)

-- With a least length of 0 the free gaps hold exactly the minutes of the range that no busy span
-- holds; and with any least length asked for, they are those of these gaps that are as long.
pub free_gaps-any :
    (start end t n : ℕ) (busy : List Span)
    → (any (holds t) (free_gaps start end busy 0)
        ≡ (leb start t && ltb t end && not (any (holds t) busy)))
      × (free_gaps start end busy n ≡ select (λ g. leb (g.s + n) g.e) (free_gaps start end busy 0))
unfolding free_gaps
free_gaps-any start end t n busy =
    let sorted =
      Ordered-order_by starts_first (λ a b c le le'. ground (arith, le, le'))
        (λ a b gt. ground (arith, gt))
        (map {A = Span} (λ b. record { s = max start b.s; e = min end b.e })
          (select (λ b. ltb start b.e && ltb b.s end) busy)) in
    let gaps = gaps_from start end (clamped start end busy) in
    (
      any-long t gaps
          ∙ ground (
            arith,
            gaps_from-any t start start end (clamped start end busy) (omega arith) sorted
                (clamped-InRange start end busy),
            any-clamped t start end busy,
          ),
      sym (select-longer n gaps),
    )
