-- ===== src/FounderApp/CalendarLayout/Packing.antt =====
-- packColumns of app/src/lib/calendarLayout.ts keeps every event, and events in one lane apart.
use mathlib.Core.List.{append_assoc, append-nil, map-append}
use agent_orchestrator.Base.{
  ℕ, ◌≤◌, ◌<◌, max, true, List, [], ◌∷◌, ◌++◌, map, ◌≡◌, ◌∙◌, refl, ap, arith, inl, inr, Bool-cases,
  length, order_by, Ordered, Ordered-order_by, All, All-append, All-imply,
}
use agent_orchestrator.FounderApp.CalendarLayout.{
  Span, Placed, sooner, lane_of, placed, flush, starts_new, pack, pack_columns,
}
use agent_orchestrator.FounderApp.CalendarLayout.Lanes.{
  All-both, StartsFrom, Sorted, Clear, AllClear, lane_of-All, lane_of-items, lane_of-AllClear,
}

module _ {ℓ} {T : Type ℓ} (span : T → Span) where
  -- Of two events in one lane the first ends before the second starts; and two events that overlap
  -- share the number of lanes.
  abbrev pub Beside : Placed T → Placed T → Type 0
  Beside p q = (p.lane ≡ q.lane → p.e ≤ q.s) × (q.s < p.e → p.lanes ≡ q.lanes)

  abbrev pub AllBeside : List (Placed T) → Type 0
  AllBeside [] = Unit
  AllBeside (p ∷ ps) = All (Beside p) ps × AllBeside ps

  -- It shows its event's times, in one of the cluster's lanes.
  abbrev pub IsPlaced : Placed T → Type 0
  IsPlaced p = (p.s ≡ (span p.item).s) × (p.e ≡ (span p.item).e) × (p.lane < p.lanes)

  All-placed :
      (P : T × ℕ → Type 0) (Q : Placed T → Type 0) (n : ℕ)
      → ((y : T × ℕ) → P y → Q (placed span n y))
      → (ys : List (T × ℕ)) → All P ys
      → All Q (map (placed span n) ys)
  All-placed P Q n f [] h = tt
  All-placed P Q n f (y ∷ ys) h = (f y h.0, All-placed P Q n f ys h.1)

  placed-AllBeside :
      (n : ℕ) (ys : List (T × ℕ)) → AllClear span ys → AllBeside (map (placed span n) ys)
  placed-AllBeside n [] h = tt
  placed-AllBeside n (y ∷ ys) h = (
    All-placed (Clear span y) (Beside (placed span n y)) n (λ z c. (c, λ over. refl)) ys h.0,
    placed-AllBeside n ys h.1,
  )

  placed-items :
      (n : ℕ) (ys : List (T × ℕ)) → map (λ p. p.item) (map (placed span n) ys) ≡ map (λ y. y.0) ys
  placed-items n [] = refl
  placed-items n (y ∷ ys) = ap (λ xs. y.0 ∷ xs) (placed-items n ys)

  flush-AllBeside :
      (cluster : List T)
      → Sorted span cluster
      → AllBeside (flush span cluster)
        × All IsPlaced (flush span cluster)
        × (map (λ p. p.item) (flush span cluster) ≡ cluster)
  unfolding flush
  flush-AllBeside cluster h =
      let laned = (lane_of span [] cluster).0 in
      let n = length (lane_of span [] cluster).1 in
      let (fits, clear, within, longer) = lane_of-AllClear span [] cluster h in
      (
        placed-AllBeside n laned clear,
        All-placed (λ y. y.1 < n) IsPlaced n (λ y lt. (refl, refl, lt)) laned within,
        placed-items n laned ∙ lane_of-items span [] cluster,
      )

  flush-All :
      (P : T → Type 0) (cluster : List T) → All P cluster → All (λ p. P p.item) (flush span cluster)
  unfolding flush
  flush-All P cluster h =
      All-placed (λ y. P y.0) (λ p. P p.item) (length (lane_of span [] cluster).1) (λ y q. q)
        (lane_of span [] cluster).0 (lane_of-All span P [] cluster h)

  starts_new_le :
      (cluster : List T) (end : ℕ) (it : T)
      → starts_new span cluster end it ≡ true
      → end ≤ (span it).s
  starts_new_le [] end it h = cc
  starts_new_le (x ∷ xs) end it h = ground (arith, h)

  All-prefix : (P : T → Type 0) (xs ys : List T) → All P (xs ++ ys) → All P xs × All P ys
  All-prefix P [] ys h = (tt, h)
  All-prefix P (x ∷ xs) ys h = let (before, rest) = All-prefix P xs ys h.1 in ((h.0, before), rest)

  Sorted-append : (xs ys : List T) → Sorted span (xs ++ ys) → Sorted span xs × Sorted span ys
  Sorted-append [] ys h = (tt, h)
  Sorted-append (x ∷ xs) ys h =
      let (before, rest) = Sorted-append xs ys h.1 in
      (((All-prefix (StartsFrom span (span x).s) xs ys h.0).0, before), rest)

  pack-All :
      (P : T → Type 0) (cluster : List T) (end : ℕ) (its : List T)
      → All P cluster
      → All P its
      → All (λ p. P p.item) (pack span cluster end its)
  unfolding pack
  pack-All P cluster end [] c h = flush-All P cluster c
  pack-All P cluster end (it ∷ its) c h = elim (Bool-cases (starts_new span cluster end it)) [
    | inl fresh ↦ rw fresh (
        All-append (λ p. P p.item) (flush span cluster) (pack span (it ∷ []) (span it).e its)
          (flush-All P cluster c) (pack-All P (it ∷ []) (span it).e its (h.0, tt) h.1))
    | inr same ↦ rw same (
        pack-All P (cluster ++ it ∷ []) (max end (span it).e) its
          (All-append P cluster (it ∷ []) c (h.0, tt)) h.1)
  ]

  AllBeside-append :
      (ps qs : List (Placed T))
      → AllBeside ps
      → AllBeside qs
      → All (λ p. All (Beside p) qs) ps
      → AllBeside (ps ++ qs)
  AllBeside-append [] qs h k c = k
  AllBeside-append (p ∷ ps) qs h k c =
      (All-append (Beside p) ps qs h.0 c.0, AllBeside-append ps qs h.1 k c.1)

  abbrev Packed : List (Placed T) → List T → Type ℓ
  Packed ps its = AllBeside ps × All IsPlaced ps × (map (λ p. p.item) ps ≡ its)

  -- Two clusters in a row, where the second starts at or after the end of the first.
  next_cluster :
      (end : ℕ) (cluster its : List T) (ps : List (Placed T))
      → Sorted span cluster
      → All (λ it. (span it).e ≤ end) cluster
      → Packed ps its
      → All (λ p. end ≤ (span p.item).s) ps
      → Packed (flush span cluster ++ ps) (cluster ++ its)
  next_cluster end cluster its ps sorted ended (beside, well, same) late =
      let (beside', well', same') = flush-AllBeside cluster sorted in
      let starts =
        All-both (λ p. end ≤ (span p.item).s) IsPlaced (λ p. end ≤ p.s)
          (λ p le q. omega (arith, le, q.0)) ps late well in
      (
        AllBeside-append (flush span cluster) ps beside' beside (
            All-both (λ p. (span p.item).e ≤ end) IsPlaced (λ p. All (Beside p) ps)
              (λ p le q.
                All-imply (λ r. end ≤ r.s) (Beside p)
                  (λ r le'. (
                    (λ lane. omega (arith, le, le', q.1)),
                    (λ over. omega (arith, le, le', q.1, over)),
                  ))
                  ps starts)
              (flush span cluster) (flush-All (λ it. (span it).e ≤ end) cluster ended) well'),
        All-append IsPlaced (flush span cluster) ps well' well,
        map-append (λ p. p.item) (flush span cluster) ps ∙ rw (same', same) refl,
      )

  pack-Packed :
      (cluster : List T) (end : ℕ) (its : List T)
      → Sorted span (cluster ++ its)
      → All (λ it. (span it).e ≤ end) cluster
      → Packed (pack span cluster end its) (cluster ++ its)
  unfolding pack
  pack-Packed cluster end [] h ended =
      rw (append-nil cluster) (flush-AllBeside cluster (rw (append-nil cluster) at h))
  pack-Packed cluster end (it ∷ its) h ended = elim (Bool-cases (starts_new span cluster end it)) [
    | inl fresh ↦
        let (sorted, rest) = Sorted-append cluster (it ∷ its) h in
        rw fresh (
          next_cluster end cluster (it ∷ its) (pack span (it ∷ []) (span it).e its) sorted ended
            (pack-Packed (it ∷ []) (span it).e its rest (omega arith, tt))
            (pack-All (λ x. end ≤ (span x).s) (it ∷ []) (span it).e its
              (starts_new_le cluster end it fresh, tt)
              (All-imply (StartsFrom span (span it).s) (λ x. end ≤ (span x).s)
                (λ x le. omega (arith, le, starts_new_le cluster end it fresh)) its rest.0)))
    | inr same ↦
        let whole = append_assoc cluster (it ∷ []) its in
        let packed = pack-Packed (cluster ++ it ∷ []) (max end (span it).e) its (rw whole h) (
          All-append (λ x. (span x).e ≤ max end (span it).e) cluster (it ∷ [])
            (All-imply (λ x. (span x).e ≤ end) (λ x. (span x).e ≤ max end (span it).e)
              (λ x le. omega (arith, le)) cluster ended)
            (omega arith, tt)) in
        rw same (packed.0, packed.1, packed.2 ∙ whole)
  ]

  sooner-Sorted : (its : List T) → Ordered (sooner span) its → Sorted span its
  sooner-Sorted [] h = tt
  sooner-Sorted (x ∷ xs) h = (
    All-imply (λ y. sooner span x y ≡ true) (StartsFrom span (span x).s)
        (λ y before. ground (arith, before)) xs h.0,
    sooner-Sorted xs h.1,
  )

  -- The day view shows each event once, in the order of their starts and ends, at its own times and
  -- in a lane below its number of lanes; of two events in one lane the first ends before or when the
  -- second starts; and two events that overlap have the same number of lanes, so that they are drawn
  -- as columns of one width, none over another.
  pub pack_columns-AllBeside :
      (items : List T)
      → AllBeside (pack_columns span items)
        × All IsPlaced (pack_columns span items)
        × (map (λ p. p.item) (pack_columns span items) ≡ order_by (sooner span) items)
        × Ordered (sooner span) (order_by (sooner span) items)
  unfolding pack_columns
  pack_columns-AllBeside items =
      let ordered =
        Ordered-order_by (sooner span) (λ a b c le le'. ground (arith, le, le'))
          (λ a b gt. ground (arith, gt)) items in
      let (beside, placed_well, same) =
        pack-Packed [] 0 (order_by (sooner span) items)
          (sooner-Sorted (order_by (sooner span) items) ordered) tt in
      (beside, placed_well, same, ordered)
