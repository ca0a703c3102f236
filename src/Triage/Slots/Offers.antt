-- ===== src/Triage/Slots/Offers.antt =====
-- The offers of src/triage/meeting-slots.ts: isSlotFree and generateSlots, over luxon. A loop that could
-- go on is given fuel, and `none` is the end of the fuel.
pub mod Clock
pub mod Ahead
pub mod Filling
pub mod Days
pub mod Samples
mod Tests
use agent_orchestrator.Base.{
  ℕ, zero, suc, ◌+◌, ◌-◌, ◌*◌, ◌%◌, max, String, Bool, true, false, not, ◌&&◌, ◌||◌, Option, some,
  none, List, [], ◌∷◌, ◌++◌, map, leb, ltb, ◌==◌, if◌then◌else◌, any, member, select, first, length,
  get_or_else, is_some,
}
use agent_orchestrator.Outbound.SendWindow.{
  Luxon, BusinessHour, Holiday, SoftBlock, Window, business_hours_by_dow, open_window_for_day,
  safe_zone, after,
}
use agent_orchestrator.Triage.Slots.{BusyInterval, Slot, merge_busy, clashes, slot_conflicts}

pub record SlotOptions : Type 0 where
  pub count : Option ℕ
  pub lead_minutes : Option ℕ
  pub horizon_days : Option ℕ
  pub granularity_minutes : Option ℕ
  pub max_per_day : Option ℕ
  pub spacing_minutes : Option ℕ

pub record GenerateSlotsInput : Type 0 where
  pub now : ℕ
  pub tz : String
  pub duration_minutes : ℕ
  pub busy : List BusyInterval
  pub business_hours : List BusinessHour
  pub holidays : List Holiday
  pub faith : Option String
  pub soft_blocks : List SoftBlock
  pub options : SlotOptions

module _ (luxon : Luxon) where
  open luxon use {DateTime, from_js_date, weekday, plus_days, start_of_day, to_millis}

  -- What is used of luxon besides. Adding NaN minutes, where luxon throws, is taken as an invalid
  -- DateTime: schedules with malformed times are outside the model.
  pub record Minutes : Type 0 where
    pub plus_minutes : DateTime → Option ℕ → DateTime
    pub floor_minute : DateTime → DateTime
    pub minute : DateTime → ℕ

  pub record SoftHold : Type 0 where
    pub start : DateTime
    pub end : DateTime

  module _ (minutes : Minutes) where
    open minutes use {plus_minutes, floor_minute, minute}

    -- A comparison with an invalid instant is false.
    abbrev pub overlaps_valid : (a_start a_end b_start b_end : Option ℕ) → Bool
    overlaps_valid a_start a_end b_start b_end = after b_end a_start && after a_end b_start

    abbrev pub applies : ℕ → Option (List ℕ) → Bool
    applies dow none = true
    applies dow (some []) = true
    applies dow (some (d ∷ ds)) = member dow (d ∷ ds)

    unfoldable pub soft_blocks_for_day : DateTime → List SoftBlock → List SoftHold
    soft_blocks_for_day day blocks =
        let midnight = start_of_day day in
        map {A = SoftBlock}
          (λ b. record {
            start = plus_minutes midnight b.start_minutes;
            end = plus_minutes midnight b.end_minutes;
          })
          (select (λ b. applies (weekday day % 7) b.days) blocks)

    abbrev pub holds : Option ℕ → Option ℕ → SoftHold → Bool
    holds starts ends h = overlaps_valid starts ends (to_millis h.start) (to_millis h.end)

    abbrev clear_of_soft : DateTime → Slot → List SoftBlock → Bool
    clear_of_soft start slot blocks =
        not
          (any (holds (some slot.starts_at) (some slot.ends_at)) (soft_blocks_for_day start blocks))

    abbrev free_in : DateTime → DateTime → Slot → GenerateSlotsInput → Option (Window luxon) → Bool
    free_in start ends slot input none = false
    free_in start ends slot input (some w) =
        not (after (to_millis w.opens) (to_millis start))
        && not (after (to_millis ends) (to_millis w.closes))
        && clear_of_soft start slot input.soft_blocks
        && not (is_some (slot_conflicts slot input.busy))

    unfoldable pub is_slot_free : Slot → GenerateSlotsInput → Bool
    is_slot_free slot input =
        let zone = safe_zone luxon input.tz in
        let start = from_js_date slot.starts_at zone in
        free_in start (from_js_date slot.ends_at zone) slot input (
          open_window_for_day luxon start (business_hours_by_dow input.business_hours)
            input.holidays input.faith)

    abbrev pub base_minute : DateTime → DateTime
    base_minute dt =
        let floor = floor_minute dt in
        if after (to_millis dt) (to_millis floor) then plus_minutes floor (some 1) else floor

    unfoldable pub ceil_to_granularity : DateTime → ℕ → DateTime
    ceil_to_granularity dt step =
        let base = base_minute dt in
        let rem = minute base % step in
        if leb step 1 || rem == 0 then base else plus_minutes base (some (step - rem))

    -- What one round of the inner loop does at a cursor.
    pub data Round : Type 0 where
      stops : Round
      jumps : DateTime → Round
      takes : Slot → DateTime → Round

    -- What the rounds of one day share. `busy` is merged.
    pub record DayPlan : Type 0 where
      pub zone : String
      pub closes : DateTime
      pub busy : List BusyInterval
      pub softs : List SoftHold
      pub duration : ℕ
      pub granularity : ℕ
      pub spacing : ℕ
      pub max_per_day : ℕ
      pub count : ℕ

    -- A cursor is a valid DateTime.
    abbrev pub instant : DateTime → ℕ
    instant dt = get_or_else (to_millis dt) 0

    abbrev pub slot_at : DateTime → DateTime → Slot
    slot_at cursor ends = record { starts_at = instant cursor; ends_at = instant ends }

    module _ (plan : DayPlan) where
      abbrev pub placed : DateTime → Slot → Option BusyInterval → Option SoftHold → Round
      placed cursor slot (some hit) soft =
          jumps (ceil_to_granularity (from_js_date hit.end plan.zone) plan.granularity)
      placed cursor slot none (some soft) = jumps (ceil_to_granularity soft.end plan.granularity)
      placed cursor slot none none = takes slot (
          ceil_to_granularity (plus_minutes cursor (some (max plan.spacing plan.duration)))
            plan.granularity)

      unfoldable pub round : DateTime → Round
      round cursor =
          let ends = plus_minutes cursor (some plan.duration) in
          if after (to_millis ends) (to_millis plan.closes)
          then stops
          else placed cursor (slot_at cursor ends)
              (first (select (clashes (slot_at cursor ends)) plan.busy))
              (first (select (holds (to_millis cursor) (to_millis ends)) plan.softs))

      abbrev pub Next : Type 0
      Next = DateTime → ℕ → List Slot → Option (List Slot)

      abbrev pub after_round : Next → ℕ → List Slot → Round → Option (List Slot)
      after_round next taken out stops = some out
      after_round next taken out (jumps cursor) = next cursor taken out
      after_round next taken out (takes slot cursor) = next cursor (taken + 1) (out ++ slot ∷ [])

      abbrev pub goes_on : ℕ → List Slot → Bool
      goes_on taken out = ltb (length out) plan.count && ltb taken plan.max_per_day

      unfoldable pub fill : ℕ → Next
      fill zero cursor taken out = if goes_on taken out then none else some out
      fill (suc fuel) cursor taken out =
          if goes_on taken out then after_round (fill fuel) taken out (round cursor) else some out

      -- Each busy interval and each hold is jumped once, and each offer is one round.
      abbrev pub enough : ℕ
      enough = length plan.busy + length plan.softs + plan.max_per_day

    module _ (input : GenerateSlotsInput) where
      abbrev pub zone_of : String
      zone_of = safe_zone luxon input.tz

      abbrev pub now_of : DateTime
      now_of = from_js_date input.now zone_of

      abbrev pub earliest : DateTime
      earliest = plus_minutes now_of (some (get_or_else input.options.lead_minutes 60))

      abbrev pub count_of : ℕ
      count_of = get_or_else input.options.count 4

      abbrev pub day_at : ℕ → DateTime
      day_at d = start_of_day (plus_days now_of d)

      abbrev pub window_at : ℕ → Option (Window luxon)
      window_at d =
          open_window_for_day luxon (day_at d) (business_hours_by_dow input.business_hours)
            input.holidays input.faith

      abbrev pub granularity_of : ℕ
      granularity_of = get_or_else input.options.granularity_minutes 30

      abbrev pub plan_at : ℕ → Window luxon → DayPlan
      plan_at d w = record {
        zone = zone_of;
        closes = w.closes;
        busy = merge_busy input.busy;
        softs = soft_blocks_for_day (day_at d) input.soft_blocks;
        duration = input.duration_minutes;
        granularity = granularity_of;
        spacing = get_or_else input.options.spacing_minutes 180;
        max_per_day = get_or_else input.options.max_per_day 2;
        count = count_of;
      }

      abbrev pub first_cursor : Window luxon → DateTime
      first_cursor w =
          ceil_to_granularity
            (if after (to_millis w.opens) (to_millis earliest) then w.opens else earliest)
            granularity_of

      abbrev pub on_day : ℕ → List Slot → Option (Window luxon) → Option (List Slot)
      on_day d out none = some out
      on_day d out (some w) = fill (plan_at d w) (enough (plan_at d w)) (first_cursor w) 0 out

      -- `for (let d = 0; d < horizonDays && out.length < count; d += 1)`, by the days left
      abbrev pub then_days :
          (ℕ → List Slot → Option (List Slot)) → ℕ → Option (List Slot) → Option (List Slot)
      then_days rest d none = none
      then_days rest d (some out) = rest (d + 1) out

      unfoldable pub days : ℕ → ℕ → List Slot → Option (List Slot)
      days zero d out = some out
      days (suc left) d out =
          if ltb (length out) count_of
          then then_days (days left) d (on_day d out (window_at d))
          else some out

      unfoldable pub generate_slots : Option (List Slot)
      generate_slots =
          if input.duration_minutes == 0 || count_of == 0
          then some []
          else days (get_or_else input.options.horizon_days 7) 0 []
