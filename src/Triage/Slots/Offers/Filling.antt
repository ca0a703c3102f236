-- ===== src/Triage/Slots/Offers/Filling.antt =====
-- The inner loop of generateSlots in src/triage/meeting-slots.ts: it ends, and what it offers.
use mathlib.Core.List.{append_assoc, append-nil}
use agent_orchestrator.Base.{
  ℕ, zero, suc, ◌+◌, ◌-◌, ◌*◌, ◌≤◌, ◌<◌, max, Bool, true, false, Option, some, none, List, [], ◌∷◌,
  ◌++◌, ◌≡◌, refl, sym, ap, ◌∙◌, arith, inl, inr, ltb, Bool-cases, Option-cases, select, first,
  length, length-append, All,
}
use agent_orchestrator.Outbound.SendWindow.{Luxon, after}
use agent_orchestrator.Triage.Slots.{BusyInterval, Slot, clashes, overlaps}
use agent_orchestrator.Triage.Slots.Offers.{
  Minutes, SoftHold, holds, ceil_to_granularity, Round, stops, jumps, takes, DayPlan, round, Next,
  after_round, goes_on, fill,
}
use agent_orchestrator.Triage.Slots.Offers.Ahead.{count_falls, count_drops, selected_passes}
use agent_orchestrator.Triage.Slots.Offers.Clock.{IsClock, ceil_later}

module _ (luxon : Luxon) (minutes : Minutes luxon) (clock : IsClock luxon minutes)
    (plan : DayPlan luxon minutes)
    (reads : (m : ℕ) → luxon.to_millis (luxon.from_js_date m plan.zone) ≡ some m) where
  abbrev pub busy_ahead : ℕ → BusyInterval → Bool
  busy_ahead c b = ltb c b.end

  abbrev pub soft_ahead : ℕ → SoftHold luxon → Bool
  soft_ahead c h = after (luxon.to_millis h.end) (some c)

  soft_gone : (c d : ℕ) (h : SoftHold luxon) → c ≤ d → soft_ahead d h ≡ true → soft_ahead c h ≡ true
  soft_gone c d h le e = elim (Option-cases (luxon.to_millis h.end)) [
    | inl invalid ↦ ground (arith, invalid, e)
    | inr (m, at) ↦ ground (arith, at, e, le)
  ]

  abbrev pub blockers : ℕ → ℕ
  blockers c = length (select (busy_ahead c) plan.busy) + length (select (soft_ahead c) plan.softs)

  -- A slot that one round takes.
  pub record Fits (slot : Slot) : Type 0 where
    pub long : slot.ends_at ≡ slot.starts_at + plan.duration * 60000
    pub in_window : after (some slot.ends_at) (luxon.to_millis plan.closes) ≡ false
    pub not_busy : first (select (clashes slot) plan.busy) ≡ none
    pub not_held :
        first (select (holds luxon minutes (some slot.starts_at) (some slot.ends_at)) plan.softs)
        ≡ none

  -- A round stops, or it goes on later with fewer blockers ahead, or it takes a slot that fits.
  data Fair (c : ℕ) : Round luxon minutes → Type 0 where
    stopping : Fair c stops
    jumping :
        (next : luxon.DateTime) (d : ℕ)
        → luxon.to_millis next ≡ some d
        → c ≤ d
        → blockers d < blockers c
        → Fair c (jumps next)
    taking :
        (slot : Slot) (next : luxon.DateTime) (d : ℕ)
        → luxon.to_millis next ≡ some d
        → c ≤ d
        → slot.starts_at ≡ c
        → Fits slot
        → Fair c (takes slot next)

  blockers_fall : (c d : ℕ) → c ≤ d → blockers d ≤ blockers c
  blockers_fall c d le = omega (
    arith,
    count_falls busy_ahead (λ c d b le. ground arith) c d le plan.busy,
    count_falls soft_ahead soft_gone c d le plan.softs,
  )

  jump_past_busy :
      (c ends : ℕ) (hit : BusyInterval)
      → first (select (clashes (record { starts_at = c; ends_at = ends })) plan.busy) ≡ some hit
      → Fair c (
          jumps (
            ceil_to_granularity luxon minutes
              (luxon.from_js_date hit.end plan.zone)
              plan.granularity))
  unfolding overlaps
  jump_past_busy c ends hit e =
      let from = luxon.from_js_date hit.end plan.zone in
      let (d, at, le) =
        ceil_later luxon minutes clock from hit.end plan.granularity (reads hit.end) in
      let clash = clashes (record { starts_at = c; ends_at = ends }) in
      let inside : c < hit.end = ground (arith, selected_passes clash plan.busy {b = hit} e) in
      let later : c ≤ d = omega (arith, inside, le) in
      jumping (ceil_to_granularity luxon minutes from plan.granularity) d at later (
        omega (
          arith,
          count_drops busy_ahead (λ c d b le. ground arith) c d later clash plan.busy {b = hit} e
              (ground (arith, inside)) (ground (arith, le)),
          count_falls soft_ahead soft_gone c d later plan.softs,
        ))

  jump_past_soft :
      (c ends : ℕ) (hit : SoftHold luxon)
      → first (select (holds luxon minutes (some c) (some ends)) plan.softs) ≡ some hit
      → Fair c (jumps (ceil_to_granularity luxon minutes hit.end plan.granularity))
  jump_past_soft c ends hit e =
      let hold = holds luxon minutes (some c) (some ends) in
      elim (Option-cases (luxon.to_millis hit.end)) [
        | inl invalid ↦ ground (arith, invalid, selected_passes hold plan.softs {b = hit} e)
        | inr (m, valid) ↦
            let (d, at, le) = ceil_later luxon minutes clock hit.end m plan.granularity valid in
            let inside : c < m =
              ground (arith, valid, selected_passes hold plan.softs {b = hit} e) in
            let later : c ≤ d = omega (arith, inside, le) in
            jumping (ceil_to_granularity luxon minutes hit.end plan.granularity) d at later (
              omega (
                arith,
                count_drops soft_ahead soft_gone c d later hold plan.softs {b = hit} e
                    (ground (arith, valid, inside)) (ground (arith, valid, le)),
                count_falls busy_ahead (λ c d b le. ground arith) c d later plan.busy,
              ))
      ]

  round-Fair :
      (cursor : luxon.DateTime) (c : ℕ)
      → luxon.to_millis cursor ≡ some c
      → Fair c (round luxon minutes plan cursor)
  unfolding round
  round-Fair cursor c e =
      let ends = minutes.plus_minutes cursor (some plan.duration) in
      let at_end = clock.added cursor c plan.duration e in
      let close = luxon.to_millis plan.closes in
      let m = c + plan.duration * 60000 in
      elim (Bool-cases (after (some m) close)) [
        | inl past ↦ rw (at_end, past) stopping
        | inr inside ↦
            elim (Option-cases
              (first (select (clashes (record { starts_at = c; ends_at = m })) plan.busy))) [
                | inr (hit, found) ↦ rw (at_end, inside, e, found) (jump_past_busy c m hit found)
                | inl free ↦
                    elim (Option-cases
                      (first (select (holds luxon minutes (some c) (some m)) plan.softs))) [
                        | inr (hit, found) ↦
                            rw (at_end, inside, e, free, found) (jump_past_soft c m hit found)
                        | inl unheld ↦
                            let step = max plan.spacing plan.duration in
                            let (d, at, le) =
                              ceil_later luxon minutes clock
                                (minutes.plus_minutes cursor (some step)) (c + step * 60000)
                                plan.granularity (clock.added cursor c step e) in
                            rw (at_end, inside, e, free, unheld)
                              (taking (record { starts_at = c; ends_at = m })
                                (ceil_to_granularity luxon minutes
                                  (minutes.plus_minutes cursor (some step)) plan.granularity)
                                d at (omega (arith, le)) refl
                                (record {
                                  long = refl;
                                  in_window = inside;
                                  not_busy = free;
                                  not_held = unheld;
                                }))
                      ]
              ]
      ]

  -- With fuel for every blocker ahead and every offer left, the loop ends; what it adds fits and does
  -- not start before the cursor, and it does not go beyond the count.
  module _ (from : ℕ) where
    abbrev pub Offered : Slot → Type 0
    Offered slot = (from ≤ slot.starts_at) × Fits slot

    abbrev pub Filled : List Slot → Option (List Slot) → Type 0
    Filled out result =
        (added : List Slot) × (result ≡ some (out ++ added))
        × All Offered added
        × (length (out ++ added) ≤ plan.count)

    ended : (out : List Slot) → length out ≤ plan.count → Filled out (some out)
    ended out short = ([], ap some (sym (append-nil out)), tt, rw (append-nil out) short)

    -- What the rest of the loop gives with `fuel`.
    abbrev Rest : ℕ → Next luxon minutes plan → Type 0
    Rest fuel rest =
        (next : luxon.DateTime) (d taken : ℕ) (out : List Slot)
        → luxon.to_millis next ≡ some d
        → from ≤ d
        → blockers d + (plan.max_per_day - taken) ≤ fuel
        → length out ≤ plan.count
        → Filled out (rest next taken out)

    one_more :
        (out : List Slot) (slot : Slot) (result : Option (List Slot))
        → Offered slot
        → Filled (out ++ slot ∷ []) result
        → Filled out result
    one_more out slot result fit (added, e, all, short) =
        let whole = append_assoc out (slot ∷ []) added in
        (slot ∷ added, e ∙ ap some whole, (fit, all), rw whole at short)

    after_round-Filled :
        (fuel c taken : ℕ) (out : List Slot) (r : Round luxon minutes)
        (rest : Next luxon minutes plan)
        → Fair c r
        → from ≤ c
        → blockers c + (plan.max_per_day - taken) ≤ suc fuel
        → length out ≤ plan.count
        → goes_on luxon minutes plan taken out ≡ true
        → Rest fuel rest
        → Filled out (after_round luxon minutes plan rest taken out r)
    after_round-Filled fuel c taken out stops rest stopping le enough_fuel short on go =
        ended out short
    after_round-Filled fuel c taken out (jumps next) rest (jumping _ d at later fewer) le
          enough_fuel short on go =
        go next d taken out at (omega (arith, le, later)) (omega (arith, fewer, enough_fuel)) short
    after_round-Filled fuel c taken out (takes slot next) rest (taking _ _ d at later starts fit) le
          enough_fuel short on go =
        let fewer = blockers_fall c d later in
        one_more out slot (rest next (taken + 1) (out ++ slot ∷ []))
          (omega (arith, le, starts), fit)
          (go next d (taken + 1) (out ++ slot ∷ []) at (omega (arith, le, later))
            (ground (arith, fewer, enough_fuel, on))
            (ground (arith, on, length-append out (slot ∷ []))))

    pub fill-Filled :
        (fuel : ℕ) (cursor : luxon.DateTime) (c taken : ℕ) (out : List Slot)
        → luxon.to_millis cursor ≡ some c
        → from ≤ c
        → blockers c + (plan.max_per_day - taken) ≤ fuel
        → length out ≤ plan.count
        → Filled out (fill luxon minutes plan fuel cursor taken out)
    unfolding fill
    fill-Filled zero cursor c taken out e le enough_fuel short =
        let full : goes_on luxon minutes plan taken out ≡ false = ground (arith, enough_fuel) in
        rw full (ended out short)
    fill-Filled (suc fuel) cursor c taken out e le enough_fuel short =
        elim (Bool-cases (goes_on luxon minutes plan taken out)) [
          | inr full ↦ rw full (ended out short)
          | inl on ↦ rw on (
              after_round-Filled fuel c taken out (round luxon minutes plan cursor)
                (fill luxon minutes plan fuel) (round-Fair cursor c e) le enough_fuel short on
                (λ next d taken' out' at le' enough_fuel' short'.
                  fill-Filled fuel next d taken' out' at le' enough_fuel' short'))
        ]
