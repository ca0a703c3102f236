-- ===== src/Triage/Slots/Merging.antt =====
-- Merging of src/triage/meeting-slots.ts loses no clash and makes none up.
use agent_orchestrator.Base.{
  ◌≤◌, ◌<◌, Bool, ◌&&◌, ◌||◌, List, [], ◌∷◌, ◌≡◌, refl, ap, ◌∙◌, arith, inl, inr, leb, select,
  first, order_by, any, is_some, Ordered, Ordered-order_by, any-order_by, Bool-cases,
}
use agent_orchestrator.Triage.Slots.{
  BusyInterval, Slot, is_proper, starts_first, extended, merge_from, merged, merge_busy, overlaps,
  clashes, slot_conflicts,
}

abbrev IsProper : BusyInterval → Type 0
IsProper i = i.start < i.end

-- Neighbours neither overlap nor touch.
abbrev pub Apart : List BusyInterval → Type 0
Apart [] = Unit
Apart (i ∷ []) = Unit
Apart (i ∷ j ∷ js) = (i.end < j.start) × Apart (j ∷ js)

extended-start : (last cur : BusyInterval) → (extended last cur).start ≡ last.start
extended-start last cur = ground arith

extended-end : (last cur : BusyInterval) → last.end ≤ (extended last cur).end
extended-end last cur = ground arith

extended-Ordered :
    (last cur : BusyInterval) (rest : List BusyInterval)
    → Ordered starts_first (last ∷ cur ∷ rest)
    → Ordered starts_first (extended last cur ∷ rest)
extended-Ordered last cur rest ((_, starts), (_, ordered)) =
    (rw (extended-start last cur) starts, ordered)

module _ (slot : Slot) (long : slot.starts_at < slot.ends_at) where
  extended-clashes :
      (last cur : BusyInterval)
      → last.start ≤ cur.start
      → cur.start ≤ last.end
      → clashes slot (extended last cur) ≡ (clashes slot last || clashes slot cur)
  unfolding overlaps
  extended-clashes last cur before touching = ground (arith, before, touching, long)

  merge_from-any :
      (last : BusyInterval) (rest : List BusyInterval)
      → Ordered starts_first (last ∷ rest)
      → any (clashes slot) (merge_from last rest) ≡ (clashes slot last || any (clashes slot) rest)
  unfolding merge_from
  merge_from-any last [] h = refl
  merge_from-any last (cur ∷ rest) h = elim (Bool-cases (leb cur.start last.end)) [
    | inl touching ↦ rw touching (
        merge_from-any (extended last cur) rest (extended-Ordered last cur rest h)
        ∙ ground
            (arith, extended-clashes last cur (ground (arith, h.0.0)) (ground (arith, touching))))
    | inr apart ↦ rw apart (ap (λ b. clashes slot last || b) (merge_from-any cur rest h.1))
  ]

  any-select :
      (p q : BusyInterval → Bool) (xs : List BusyInterval)
      → any p (select q xs) ≡ any (λ x. q x && p x) xs
  any-select p q [] = refl
  any-select p q (x ∷ xs) = ground (arith, any-select p q xs)

  merged-any :
      (is : List BusyInterval)
      → Ordered starts_first is
      → any (clashes slot) (merged is) ≡ any (clashes slot) is
  merged-any [] h = refl
  merged-any (i ∷ is) h = merge_from-any i is h

  is_some-first-select :
      (p : BusyInterval → Bool) (xs : List BusyInterval) → is_some (first (select p xs)) ≡ any p xs
  is_some-first-select p [] = refl
  is_some-first-select p (x ∷ xs) = ground (arith, is_some-first-select p xs)

merge_from-Apart :
    (last : BusyInterval) (rest : List BusyInterval)
    → Apart (merge_from last rest)
      × ((j : BusyInterval) → j.end < last.start → Apart (j ∷ merge_from last rest))
unfolding merge_from
merge_from-Apart last [] = (tt, λ j before. (before, tt))
merge_from-Apart last (cur ∷ rest) = elim (Bool-cases (leb cur.start last.end)) [
  | inl touching ↦ rw touching (
      let (apart, next) = merge_from-Apart (extended last cur) rest in
      (apart, (λ j before. next j (rw (extended-start last cur) before))))
  | inr apart ↦
      let (_, next) = merge_from-Apart cur rest in
      let whole = next last (ground (arith, apart)) in
      rw apart (whole, (λ j before. (before, whole)))
]

merged-Apart : (is : List BusyInterval) → Apart (merged is)
merged-Apart [] = tt
merged-Apart (i ∷ is) = let (apart, _) = merge_from-Apart i is in apart

-- The merged intervals neither overlap nor touch, and a slot of some length collides with one of them
-- exactly if it overlaps one of the intervals that were given, the empty and inverted ones apart.
pub slot_conflicts-any :
    (slot : Slot) (busy : List BusyInterval)
    → slot.starts_at < slot.ends_at
    → Apart (merge_busy busy)
      × (is_some (slot_conflicts slot busy) ≡ any (λ b. is_proper b && clashes slot b) busy)
unfolding merge_busy slot_conflicts
slot_conflicts-any slot busy long =
    let proper = select is_proper busy in
    let sorted = order_by starts_first proper in
    (
      merged-Apart sorted,
      is_some-first-select slot long (clashes slot) (merged sorted)
          ∙ merged-any slot long sorted (
              Ordered-order_by starts_first (λ a b c le le'. ground (arith, le, le'))
                (λ a b gt. ground (arith, gt)) proper)
          ∙ any-order_by starts_first (clashes slot) proper
          ∙ any-select slot long (clashes slot) is_proper busy,
    )
