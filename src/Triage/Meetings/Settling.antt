-- ===== src/Triage/Meetings/Settling.antt =====
-- The fallback and the booking of src/triage/meeting-scheduler.ts keep the accounts.
use agent_orchestrator.Base.{
  ℕ, true, false, Option, some, [], ◌∷◌, ◌≡◌, ◌∙◌, refl, arith, inl, inr, find_row_key,
  Option-cases, Bool-cases, ==_iff,
}
use agent_orchestrator.Triage.Meetings.{
  MeetingRequest, meeting_id, code, guarded, one_row, update_requests, set_status,
  fallback_creating, failed, fallback_pending,
}
use agent_orchestrator.Triage.Meetings.Repo.{
  complete_meeting_give_up, release_meeting_give_up, claim_meeting_give_up, give_up_states,
}
use agent_orchestrator.Triage.Meetings.Scheduler.{
  World, with_db, Reply, TaskReply, made, not_made, task_threw, after_fallback, give_up_to_task,
  given_up, fallback_queued,
}
use agent_orchestrator.Triage.Meetings.Sound.{
  request, IsSound, notify-IsSound, updated-IsSound, quiet, request-updated, won_found,
}

module _ (ended : ℕ → Option ℕ) where
  -- The fallback of a request whose claim is held settles it, with one task or with none.
  after_fallback-IsSound :
      (m owned : MeetingRequest) (reply : Reply) (w : World) (t : TaskReply)
      → IsSound ended w
      → request m.id w ≡ some owned
      → code owned.status ≡ 5
      → IsSound ended (after_fallback m reply w t)
  unfolding complete_meeting_give_up release_meeting_give_up
  after_fallback-IsSound m owned reply w (made url) sound found held =
      notify-IsSound (given_up m.id true) (
        updated-IsSound ended w sound reply.written_at (guarded m.id (5 ∷ [])) (set_status failed)
          (λ x. refl) (λ x. refl) w.booked (m.id ∷ w.minted) w.db.confirmations
          (λ k. elim (Option-cases (request k w)) [
            | inl absent ↦ ground (arith, absent, sound.accounted k, found, ==_iff m.id k)
            | inr (x, here) ↦ ground (
              arith,
              here,
              sound.accounted k,
              found,
              held,
              ==_iff m.id k,
              find_row_key meeting_id k w.db.requests {r = x} here,
            )
          ])
          (λ x h final. ground (arith, h, final)))
  after_fallback-IsSound m owned reply w not_made sound found held =
      notify-IsSound (given_up m.id false) (
        quiet ended w sound reply.written_at (guarded m.id (5 ∷ [])) (set_status failed) (λ x. refl)
          (λ x. refl) (λ x h. ground (arith, h)))
  after_fallback-IsSound m owned reply w task_threw sound found held =
      notify-IsSound (fallback_queued m.id) (
        quiet ended w sound reply.written_at (guarded m.id (5 ∷ [])) (set_status fallback_pending)
          (λ x. refl) (λ x. refl) (λ x h. ground (arith, h)))

  pub give_up_to_task-IsSound :
      (m : MeetingRequest) (reply : Reply) (w : World)
      → IsSound ended w
      → IsSound ended (give_up_to_task m reply w)
  unfolding give_up_to_task claim_meeting_give_up
  give_up_to_task-IsSound m reply w sound =
      let taken =
        quiet ended w sound reply.written_at (guarded m.id give_up_states)
          (set_status fallback_creating) (λ x. refl) (λ x. refl) (λ x h. ground (arith, h)) in
      elim (Bool-cases (one_row (guarded m.id give_up_states) w.db)) [
        | inr lost ↦ rw lost taken
        | inl won ↦
            let (x, found, hit) = won_found ended w m.id give_up_states sound won in
            let owned = record x { status = fallback_creating; updated_at = reply.written_at } in
            rw won (
              after_fallback-IsSound m owned reply
                (with_db w (
                  update_requests reply.written_at (guarded m.id give_up_states)
                    (set_status fallback_creating) w.db))
                reply.task taken
                (request-updated ended w sound reply.written_at (guarded m.id give_up_states)
                    (set_status fallback_creating) (λ x. refl) (λ x. refl) m.id
                  ∙ rw (found, hit) refl)
                refl)
      ]
