-- ===== src/Inbox/Queue/Claim.antt =====
-- What a claim of src/inbox/inbox-repo.ts hands over.
use mathlib.Core.Option
use agent_orchestrator.Base.{
  ltb, ℕ, ◌+◌, ◌<◌, ◌⊎◌, inl, inr, Bool, true, false, some, List, [], ◌∷◌, ◌≡◌, refl, sym, ◌∙◌,
  arith, if◌then◌else◌, select, map, member, find_row, find_row_key, find_row-update_where, is_some,
  HasUniqueKeys, Option-cases, member-take, member-select, select_of_member, find_row_of_member,
  ◌||◌, ◌&&◌,
}
use agent_orchestrator.Inbox.Rows.{
  Status, is_pending, is_processing, Direction, is_inbound, InboxRow, row_id, ChannelInstance, Db,
  JsonReader,
}
use agent_orchestrator.Inbox.Queue.{
  max_attempts, stuck, grace, stamp, ClaimedInbox, joined, instance_of, is_claimable, claimed,
  chosen, claim_batch,
}

abbrev pub claimed_key : ClaimedInbox → ℕ
claimed_key c = c.id

-- What a row must be to be claimed.
pub record IsClaimable (now : ℕ) (locked : ℕ → Bool) (r : InboxRow) : Type 0 where
  pub is_inbound : r.direction ≡ Direction.inbound
  pub attempts_left : r.retry_count < max_attempts
  pub waiting :
      (r.status ≡ Status.pending) ⊎ ((r.status ≡ Status.processing) × (r.updated_at + stuck < now))
  pub readable : (is_some r.body ≡ true) ⊎ (r.received_at + grace < now)
  pub unlocked : locked r.id ≡ false

is_inbound_iff : (d : Direction) → is_inbound d ≡ true → d ≡ Direction.inbound
is_inbound_iff Direction.inbound h = refl
is_inbound_iff Direction.outbound h = cc

waiting_of :
    (s : Status) (late : Bool)
    → (is_pending s || (is_processing s && late)) ≡ true
    → (s ≡ Status.pending) ⊎ ((s ≡ Status.processing) × (late ≡ true))
waiting_of Status.pending late h = inl refl
waiting_of Status.processing late h = inr (refl, h)
waiting_of Status.processed late h = cc
waiting_of Status.failed late h = cc
waiting_of Status.skipped late h = cc

is_claimable-IsClaimable :
    (now : ℕ) (locked : ℕ → Bool) (r : InboxRow)
    → is_claimable now locked r ≡ true
    → IsClaimable now locked r
unfolding is_claimable
is_claimable-IsClaimable now locked r h = record {
  is_inbound = is_inbound_iff r.direction (ground arith);
  attempts_left = ground arith;
  waiting = elim (waiting_of r.status (ltb (r.updated_at + stuck) now) (ground arith)) [
    | inl fresh ↦ inl fresh
    | inr (busy, late) ↦ inr (busy, ground arith)
  ];
  readable = ground arith;
  unlocked = ground arith;
}

member-joined :
    (json : JsonReader) (cs : List ChannelInstance) (k : ℕ) (rs : List InboxRow)
    → member k (map claimed_key (joined json cs rs)) ≡ true
    → member k (map row_id rs) ≡ true
unfolding joined
member-joined json cs k [] h = h
member-joined json cs k (r ∷ rs) h = elim (Option-cases (instance_of r.channel_instance_id cs)) [
  | inl missing ↦ ground (arith, missing, member-joined json cs k rs)
  | inr (ci, e) ↦ ground (arith, e, member-joined json cs k rs)
]

map-stamp-id :
    (now : ℕ) (rs : List InboxRow) → map row_id (map (stamp now claimed) rs) ≡ map row_id rs
map-stamp-id now [] = refl
map-stamp-id now (r ∷ rs) = rw (map-stamp-id now rs) refl

pub chosen-IsClaimable :
    (limit now : ℕ) (locked : ℕ → Bool) (db : Db) (k : ℕ) {r : InboxRow}
    → HasUniqueKeys row_id db.inbox
    → find_row row_id k db.inbox ≡ some r
    → member k (map row_id (chosen limit now locked db)) ≡ true
    → IsClaimable now locked r
chosen-IsClaimable limit now locked db k {r} u e m = is_claimable-IsClaimable now locked r (
    select_of_member row_id (is_claimable now locked) k db.inbox {r = r} u e
      (member-take row_id k limit (select (is_claimable now locked) db.inbox) m))

module _ (json : JsonReader) (limit now : ℕ) (locked : ℕ → Bool) (db : Db) where
  abbrev pub claimed_ids : List ℕ
  claimed_ids = map claimed_key (claim_batch json limit now locked db).1

  claimed_ids-chosen :
      (k : ℕ)
      → member k claimed_ids ≡ true
      → member k (map row_id (chosen limit now locked db)) ≡ true
  unfolding claim_batch
  claimed_ids-chosen k m =
      rw (map-stamp-id now (chosen limit now locked db)) at
        (member-joined json db.instances k (map (stamp now claimed) (chosen limit now locked db)) m)

  row-claim_batch :
      (k : ℕ)
      → find_row row_id k (claim_batch json limit now locked db).0.inbox
        ≡ Option.map
            (λ r.
              if member r.id (map row_id (chosen limit now locked db))
              then stamp now claimed r
              else r)
            (find_row row_id k db.inbox)
  unfolding claim_batch
  row-claim_batch k = find_row-update_where row_id _ _ (λ r. refl) k db.inbox

  -- A claimed row was inbound, with attempts left, waiting or stuck, readable or past its grace,
  -- and not locked by another session; from then on it is `processing` with one attempt more. `id`
  -- is a primary key.
  pub claim_batch-IsClaimable :
      (k : ℕ)
      → HasUniqueKeys row_id db.inbox
      → member k claimed_ids ≡ true
      → (r : InboxRow) × (find_row row_id k db.inbox ≡ some r)
        × IsClaimable now locked r
        × (find_row row_id k (claim_batch json limit now locked db).0.inbox
            ≡ some (stamp now claimed r))
  claim_batch-IsClaimable k u m =
      let m' = claimed_ids-chosen k m in
      let listed = member-take row_id k limit (select (is_claimable now locked) db.inbox) m' in
      elim (Option-cases (find_row row_id k db.inbox)) [
        | inl missing ↦ cc (
            sym (member-select row_id (is_claimable now locked) k db.inbox listed)
            ∙ find_row_of_member row_id k db.inbox missing)
        | inr (r, e) ↦
            let same = find_row_key row_id k db.inbox {r = r} e in
            (
              r,
              e,
              chosen-IsClaimable limit now locked db k u e m',
              rw (row-claim_batch k, e, same, m') refl,
            )
      ]
