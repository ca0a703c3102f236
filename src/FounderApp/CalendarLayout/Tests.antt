-- ===== src/FounderApp/CalendarLayout/Tests.antt =====
-- Three meetings, two of them at the same time.
use agent_orchestrator.Base.{
  ℕ, not, ◌&&◌, List, [], ◌∷◌, map, ◌+◌, ◌≡◌, refl, leb, ltb, any, select, order_by, Ordered, All,
}
use agent_orchestrator.FounderApp.CalendarLayout.{
  Span, take_lane, sooner, lane_of, flush, pack, pack_columns, gaps_from, free_gaps,
}
use agent_orchestrator.FounderApp.CalendarLayout.Packing.{
  AllBeside, IsPlaced, pack_columns-AllBeside,
}
use agent_orchestrator.FounderApp.CalendarLayout.Gaps.{holds, free_gaps-any}

abbrev meetings : List Span
meetings =
    record { s = 660; e = 720 } ∷ record { s = 540; e = 600 } ∷ record { s = 570; e = 630 } ∷ []

two_lanes :
    map {B = ℕ × ℕ × ℕ} (λ p. (p.s, p.lane, p.lanes)) (pack_columns (λ m. m) meetings)
    ≡ ((540, 0, 2) ∷ (570, 1, 2) ∷ (660, 0, 1) ∷ [])
unfolding pack_columns pack flush lane_of take_lane
two_lanes = refl

two_gaps : free_gaps 540 780 meetings 45 ≡ (record { s = 720; e = 780 } ∷ [])
unfolding free_gaps gaps_from
two_gaps = refl

pack_columns-AllBeside_example :
    AllBeside (λ m. m) (pack_columns (λ m. m) meetings)
    × All (IsPlaced (λ m. m)) (pack_columns (λ m. m) meetings)
    × (map (λ p. p.item) (pack_columns (λ m. m) meetings) ≡ order_by (sooner (λ m. m)) meetings)
    × Ordered (sooner (λ m. m)) (order_by (sooner (λ m. m)) meetings)
pack_columns-AllBeside_example = pack_columns-AllBeside (λ m. m) meetings

free_gaps-any_example :
    (any (holds 640) (free_gaps 540 780 meetings 0)
      ≡ (leb 540 640 && ltb 640 780 && not (any (holds 640) meetings)))
    × (free_gaps 540 780 meetings 45
        ≡ select (λ g. leb (g.s + 45) g.e) (free_gaps 540 780 meetings 0))
free_gaps-any_example = free_gaps-any 540 780 640 45 meetings
