-- ===== src/FounderApp/CalendarLayout.antt =====
-- The day view of app/src/lib/calendarLayout.ts: the lanes of overlapping events and the free gaps.
-- Minutes of a day are natural numbers.
pub mod Lanes
pub mod Packing
pub mod Gaps
mod Tests
use agent_orchestrator.Base.{
  ℕ, ◌+◌, ◌-◌, max, min, Bool, true, false, ◌&&◌, ◌||◌, List, [], ◌∷◌, ◌++◌, map, ltb, leb, ◌==◌,
  if◌then◌else◌, select, length, order_by,
}

pub record Span : Type 0 where
  pub s : ℕ
  pub e : ℕ

pub record Placed {ℓ} (T : Type ℓ) : Type ℓ where
  pub item : T
  pub s : ℕ
  pub e : ℕ
  pub lane : ℕ
  pub lanes : ℕ

-- The first lane that is free at `s`, or a new one, and the ends of the lanes with `e` in it.
pub take_lane : (s e : ℕ) → List ℕ → ℕ × List ℕ
take_lane s e [] = (0, e ∷ [])
take_lane s e (end ∷ ends) =
    let (lane, rest) = take_lane s e ends in
    if leb end s then (0, e ∷ ends) else (lane + 1, end ∷ rest)

-- `T extends Span`
module _ {ℓ} {T : Type ℓ} (span : T → Span) where
  abbrev pub sooner : T → T → Bool
  sooner a b = ltb (span a).s (span b).s || ((span a).s == (span b).s && leb (span a).e (span b).e)

  -- The items of a cluster with their lanes, and the ends of the lanes.
  pub lane_of : List ℕ → List T → List (T × ℕ) × List ℕ
  lane_of ends [] = ([], ends)
  lane_of ends (it ∷ its) =
      let (lane, ends') = take_lane (span it).s (span it).e ends in
      let (rest, last) = lane_of ends' its in ((it, lane) ∷ rest, last)

  abbrev pub placed : ℕ → T × ℕ → Placed T
  placed lanes (it, lane) = record {
    item = it;
    s = (span it).s;
    e = (span it).e;
    lane = lane;
    lanes = lanes;
  }

  pub flush : List T → List (Placed T)
  flush cluster = let (laned, ends) = lane_of [] cluster in map (placed (length ends)) laned

  abbrev pub is_empty : List T → Bool
  is_empty [] = true
  is_empty (x ∷ xs) = false

  abbrev pub starts_new : List T → ℕ → T → Bool
  starts_new [] cluster_end it = false
  starts_new (x ∷ xs) cluster_end it = leb cluster_end (span it).s

  -- The loop over the sorted items; an empty cluster ends at 0, where the source has -1.
  pub pack : List T → ℕ → List T → List (Placed T)
  pack cluster cluster_end [] = flush cluster
  pack cluster cluster_end (it ∷ its) =
      let fresh = starts_new cluster cluster_end it in
      (if fresh then flush cluster else [])
      ++ pack (if fresh then it ∷ [] else cluster ++ it ∷ [])
          (if fresh then (span it).e else max cluster_end (span it).e) its

  pub pack_columns : List T → List (Placed T)
  pack_columns items = pack [] 0 (order_by sooner items)

abbrev pub starts_first : Span → Span → Bool
starts_first a b = leb a.s b.s

abbrev pub clamped : (start end : ℕ) → List Span → List Span
clamped start end busy = order_by starts_first (
    map {A = Span} (λ b. record { s = max start b.s; e = min end b.e })
      (select (λ b. ltb start b.e && ltb b.s end) busy))

pub gaps_from : (cursor end : ℕ) → List Span → List Span
gaps_from cursor end [] = if ltb cursor end then record { s = cursor; e = end } ∷ [] else []
gaps_from cursor end (b ∷ bs) =
    let rest = gaps_from (max cursor b.e) end bs in
    if ltb cursor b.s then record { s = cursor; e = b.s } ∷ rest else rest

pub free_gaps : (start end : ℕ) → List Span → (min_len : ℕ) → List Span
free_gaps start end busy min_len =
    select (λ g. leb (g.s + min_len) g.e) (gaps_from start end (clamped start end busy))
