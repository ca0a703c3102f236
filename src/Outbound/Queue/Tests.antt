-- ===== src/Outbound/Queue/Tests.antt =====
-- The theorems about src/outbound/outbound-repo.ts at concrete tables.
use agent_orchestrator.Base.{ℕ, String, Bool, true, false, some, List, [], ◌∷◌, ◌≡◌, refl, member}
use agent_orchestrator.Outbound.Rows.{Status, OutboundRow, Db}
use agent_orchestrator.Outbound.Queue.{
  stamp, to_sending, claim_due, chosen, is_due, joined, joined_rows,
}
use agent_orchestrator.Outbound.Queue.Effects.{row_at}
use agent_orchestrator.Outbound.Queue.Claim.{
  IsEligible, claimed_ids, claim_due-IsEligible, claims_disjoint,
}
use agent_orchestrator.Outbound.Samples.{row_in, draft_in, db_of}

abbrev unlocked : ℕ → Bool
unlocked k = false

abbrev wa : List String
wa = "whatsapp" ∷ []

abbrev mixed : Db
mixed = db_of (row_in 1 Status.approved ∷ draft_in 2 ∷ [])

claims_first : claimed_ids 25 wa 1000 unlocked mixed ≡ 1 ∷ []
unfolding claim_due chosen is_due joined_rows joined
claims_first = refl

claims_one : member 1 (claimed_ids 25 wa 1000 unlocked mixed) ≡ true
unfolding claim_due chosen is_due joined_rows joined
claims_one = refl

claim_due-IsEligible_example :
    (r : OutboundRow) × (row_at 1 mixed ≡ some r)
    × IsEligible mixed.instances wa 1000 unlocked r
    × (row_at 1 (claim_due 25 wa 1000 unlocked mixed).0 ≡ some (stamp 1000 to_sending r))
claim_due-IsEligible_example =
    claim_due-IsEligible 25 wa 1000 unlocked mixed 1 (refl, (refl, tt)) claims_one

claims_disjoint_example :
    member 1 (claimed_ids 25 wa 1001 unlocked (claim_due 25 wa 1000 unlocked mixed).0) ≡ false
claims_disjoint_example =
    claims_disjoint 25 25 wa wa 1000 1001 unlocked unlocked mixed 1 (refl, (refl, tt)) claims_one

abbrev flying : Db
flying = db_of (row_in 1 Status.sending ∷ [])
