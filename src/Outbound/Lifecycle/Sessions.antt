-- ===== src/Outbound/Lifecycle/Sessions.antt =====
-- What processRow of src/outbound/outbound-drainer.factory.ts does when nothing comes between is a
-- sequence of the steps.
use agent_orchestrator.Base.{Bool, String, Option, List, [], ◌∷◌, ◌++◌, refl}
use agent_orchestrator.Outbound.Queue.{ClaimedOutbound}
use agent_orchestrator.Outbound.SendWindow.{Luxon, BusinessHour, Holiday}
use agent_orchestrator.Outbound.Drainer.{
  DrainerConfig, Adapter, Clock, SendOutcome, World, process_row,
}
use agent_orchestrator.Outbound.Drainer.Handled.{
  Handled, parked, barred, recorded, reviewed, retried, process_row-Handled,
}
use agent_orchestrator.Outbound.Lifecycle.{
  parks, bars, marks, reviews, retries, Fleet, puts_back, hands_over, records, Reach, here, next,
}

-- The drainer's world, with what the sessions have.
abbrev pub fleet : World → (held flying : List ClaimedOutbound) → Fleet
fleet w held flying = record { db = w.db; dispatched = w.dispatched; held = held; flying = flying }

module _ (before : List ClaimedOutbound) (row : ClaimedOutbound) (after : List ClaimedOutbound)
    (flying : List ClaimedOutbound) where
  Handled-Reach :
      (G : Type 0) (w w' : World)
      → Handled G row w w'
      → Reach (fleet w (before ++ row ∷ after) flying) (fleet w' (before ++ after) flying)
  Handled-Reach G w w' (parked now t d log) =
      rw (d, log) (next here (puts_back before row after refl (parks now t)))
  Handled-Reach G w w' (barred now reason d log) =
      rw (d, log) (next here (puts_back before row after refl (bars now reason)))
  Handled-Reach G w w' (recorded now provider d log g) =
      rw (d, log)
        (next (next here (hands_over before row after refl))
          (records [] row flying refl (marks now provider)))
  Handled-Reach G w w' (reviewed now reason possibly d log g) =
      rw (d, log)
        (next (next here (hands_over before row after refl))
          (records [] row flying refl (reviews now reason possibly)))
  Handled-Reach G w w' (retried now reason backoff d log g) =
      rw (d, log)
        (next (next here (hands_over before row after refl))
          (records [] row flying refl (retries now reason backoff)))

  pub process_row-Reach :
      (luxon : Luxon) (cfg : DrainerConfig) (registry : String → Option Adapter)
      (hours : List BusinessHour) (holidays : List Holiday) (clock : Clock) (held : Bool)
      (outcome : SendOutcome) (w : World)
      → Reach (fleet w (before ++ row ∷ after) flying) (
          fleet
            (process_row luxon cfg registry hours holidays clock held row outcome w)
            (before ++ after)
            flying)
  process_row-Reach luxon cfg registry hours holidays clock held outcome w =
      Handled-Reach _ w _
        (process_row-Handled luxon cfg registry hours holidays clock held row outcome w)
