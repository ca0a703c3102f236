-- ===== src/Scheduling/Actions/Edges.antt =====
-- The life of a scheduled action.
use agent_orchestrator.Base.{Bool, true, false, ◌≡◌, refl, ◌||◌}
use agent_orchestrator.Outbound.Rows.{ActionStatus}
use agent_orchestrator.Scheduling.Rows.{is_pending, is_running}

-- Pending or running: nothing has been handed over.
abbrev pub is_open : ActionStatus → Bool
is_open s = is_pending s || is_running s

infix 40 ◌⇝◌
pub data ◌⇝◌ : ActionStatus → ActionStatus → Type 0 where
  stay : {s : ActionStatus} → s ⇝ s
  start : ActionStatus.pending ⇝ ActionStatus.running
  cancel : ActionStatus.pending ⇝ ActionStatus.cancelled
  miss : ActionStatus.pending ⇝ ActionStatus.missed
  give_up : ActionStatus.pending ⇝ ActionStatus.failed
  hand_over : ActionStatus.running ⇝ ActionStatus.dispatched
  complete : ActionStatus.running ⇝ ActionStatus.completed
  again : ActionStatus.running ⇝ ActionStatus.pending
  miss_running : ActionStatus.running ⇝ ActionStatus.missed
  fail : ActionStatus.running ⇝ ActionStatus.failed
  recall : ActionStatus.dispatched ⇝ ActionStatus.cancelled
  -- what the drainer writes of an action that has a row, whatever the action's status is by then
  overwrite : {s t : ActionStatus} → is_open s ≡ false → is_open t ≡ false → s ⇝ t

pub edge_open : {s t : ActionStatus} → s ⇝ t → is_open t ≡ true → is_open s ≡ true
edge_open stay h = h
edge_open start h = refl
edge_open cancel h = refl
edge_open miss h = refl
edge_open give_up h = refl
edge_open hand_over h = refl
edge_open complete h = refl
edge_open again h = refl
edge_open miss_running h = refl
edge_open fail h = refl
edge_open recall h = cc
edge_open (overwrite was is) h = cc

pub edge_of_pending : {s t : ActionStatus} → is_pending s ≡ true → ActionStatus.pending ⇝ t → s ⇝ t
edge_of_pending {s = ActionStatus.pending} h e = e
edge_of_pending {s = ActionStatus.running} h e = cc
edge_of_pending {s = ActionStatus.dispatched} h e = cc
edge_of_pending {s = ActionStatus.completed} h e = cc
edge_of_pending {s = ActionStatus.cancelled} h e = cc
edge_of_pending {s = ActionStatus.missed} h e = cc
edge_of_pending {s = ActionStatus.failed} h e = cc

pub edge_of_running : {s t : ActionStatus} → is_running s ≡ true → ActionStatus.running ⇝ t → s ⇝ t
edge_of_running {s = ActionStatus.running} h e = e
edge_of_running {s = ActionStatus.pending} h e = cc
edge_of_running {s = ActionStatus.dispatched} h e = cc
edge_of_running {s = ActionStatus.completed} h e = cc
edge_of_running {s = ActionStatus.cancelled} h e = cc
edge_of_running {s = ActionStatus.missed} h e = cc
edge_of_running {s = ActionStatus.failed} h e = cc

-- Zero or more steps of the diagram.
pub data Goes : ActionStatus → ActionStatus → Type 0 where
  at_rest : {s : ActionStatus} → Goes s s
  move : {s t u : ActionStatus} → Goes s t → t ⇝ u → Goes s u

pub Goes-trans : {s t u : ActionStatus} → Goes s t → Goes t u → Goes s u
Goes-trans g at_rest = g
Goes-trans g (move h e) = move (Goes-trans g h) e

pub Goes-open : {s t : ActionStatus} → Goes s t → is_open t ≡ true → is_open s ≡ true
Goes-open at_rest h = h
Goes-open (move g e) h = Goes-open g (edge_open e h)
