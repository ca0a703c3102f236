-- ===== src/Triage/Slots/Offers/Clock.antt =====
-- What src/triage/meeting-slots.ts relies on of luxon, and that rounding up never goes back.
use agent_orchestrator.Base.{
  ℕ, ◌+◌, ◌-◌, ◌*◌, ◌%◌, ◌≤◌, ◌<◌, String, ◌||◌, some, ◌≡◌, arith, inl, inr, leb, ◌==◌, Bool-cases,
}
use agent_orchestrator.Outbound.SendWindow.{Luxon, safe_zone, after}
use agent_orchestrator.Triage.Slots.Offers.{Minutes, base_minute, ceil_to_granularity}

-- Minutes are added as exact time, the seconds are cut off, and a zone that `safe_zone` lets through
-- gives valid dates.
pub record IsClock (luxon : Luxon) (minutes : Minutes luxon) : Type 0 where
  pub added :
      (d : luxon.DateTime) (m n : ℕ)
      → luxon.to_millis d ≡ some m
      → luxon.to_millis (minutes.plus_minutes d (some n)) ≡ some (m + n * 60000)
  pub floored :
      (d : luxon.DateTime) (m : ℕ)
      → luxon.to_millis d ≡ some m
      → (f : ℕ) × (luxon.to_millis (minutes.floor_minute d) ≡ some f) × (f ≤ m) × (m < f + 60000)
  pub reads_back :
      (m : ℕ) (tz : String) → luxon.to_millis (luxon.from_js_date m (safe_zone luxon tz)) ≡ some m

module _ (luxon : Luxon) (minutes : Minutes luxon) (clock : IsClock luxon minutes) where
  base_minute_later :
      (d : luxon.DateTime) (m : ℕ)
      → luxon.to_millis d ≡ some m
      → (b : ℕ) × (luxon.to_millis (base_minute luxon minutes d) ≡ some b) × (m ≤ b)
  base_minute_later d m e =
      let (f, at, le, near) = clock.floored d m e in
      elim (Bool-cases (after (luxon.to_millis d) (luxon.to_millis (minutes.floor_minute d)))) [
        | inl later ↦ (
          f + 1 * 60000,
          rw later (clock.added (minutes.floor_minute d) f 1 at),
          omega (arith, near),
        )
        | inr same ↦ let not_past : m ≤ f = ground (arith, same, e, at) in (f, rw same at, not_past)
      ]

  pub ceil_later :
      (d : luxon.DateTime) (m g : ℕ)
      → luxon.to_millis d ≡ some m
      → (c : ℕ) × (luxon.to_millis (ceil_to_granularity luxon minutes d g) ≡ some c) × (m ≤ c)
  unfolding ceil_to_granularity
  ceil_later d m g e =
      let (b, at, le) = base_minute_later d m e in
      let base = base_minute luxon minutes d in
      let rem = minutes.minute base % g in
      elim (Bool-cases (leb g 1 || rem == 0)) [
        | inl whole ↦ (b, rw whole at, le)
        | inr part ↦
            (b + (g - rem) * 60000, rw part (clock.added base b (g - rem) at), omega (arith, le))
      ]
