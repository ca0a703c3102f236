-- ===== src/Outbound/Queue/Claim.antt =====
-- What a claim takes: eligible rows only, at most the limit, and never a row twice.
use mathlib.Core.Option
use mathlib.Core.List.{Memᴰ}
use agent_orchestrator.Base.{
  ◌≢◌, ℕ, suc, ◌≤◌, String, Bool, true, false, ◌&&◌, some, none, List, [], ◌∷◌, ◌≡◌, refl, sym,
  arith, if◌then◌else◌, find_row-update_where, map, member, HasUniqueKeys, Distinct, take-Distinct,
  select-Distinct, HasUniqueKeys-update_where, member-take, select_of_member, member-select,
  find_row_of_member, Option-cases, Bool-cases, length, length-take_le, All, All-take, All-select,
  any, str_eq, eq_iff, inl, inr, find_row_key, ap, ◌∙◌,
}
use agent_orchestrator.Outbound.Rows.{Status, OutboundRow, row_id, Instance, Db}
use agent_orchestrator.Outbound.Queue.{
  stamp, ClaimedOutbound, is_armed, is_due, channel_type_of, joined, joined_rows, chosen, claim_due,
  to_sending,
}
use agent_orchestrator.Outbound.Queue.Effects.{row_at}

-- What the drainer may claim, stated without the code's test.
pub record IsEligible (instances : List Instance) (types : List String) (now : ℕ)
    (locked : ℕ → Bool) (r : OutboundRow) : Type 0 where
  pub approved : r.status ≡ Status.approved
  pub final : r.is_draft ≡ false
  pub due : (t : ℕ) → r.send_after ≡ some t → t ≤ now
  pub armed :
      (i : Instance) × Memᴰ i instances × (i.id ≡ r.channel_instance_id) × Memᴰ i.channel_type types
  pub free : locked r.id ≡ false

any-Memᴰ : (s : String) (types : List String) → any (λ t. str_eq s t) types ≡ true → Memᴰ s types
any-Memᴰ s [] h = cc
any-Memᴰ s (t ∷ ts) h = elim (Bool-cases (str_eq s t)) [
  | inl same ↦ Memᴰ.head ((eq_iff s t).0 same)
  | inr other ↦ Memᴰ.tail (any-Memᴰ s ts (ground arith))
]

is_armed-Memᴰ :
    (instances : List Instance) (types : List String) (r : OutboundRow)
    → is_armed instances types r ≡ true
    → (i : Instance) × Memᴰ i instances × (i.id ≡ r.channel_instance_id) × Memᴰ i.channel_type types
is_armed-Memᴰ [] types r h = cc
is_armed-Memᴰ (i ∷ is) types r h =
    elim (Bool-cases
      (str_eq i.id r.channel_instance_id && any (λ t. str_eq i.channel_type t) types)) [
        | inl here ↦ (
          i,
          Memᴰ.head refl,
          (eq_iff _ _).0 (ground arith),
          any-Memᴰ i.channel_type types (ground arith),
        )
        | inr there ↦
            let (j, m, same, armed) = is_armed-Memᴰ is types r (ground arith) in
            (j, Memᴰ.tail m, same, armed)
      ]

is_due-IsEligible :
    (instances : List Instance) (types : List String) (now : ℕ) (locked : ℕ → Bool)
    (r : OutboundRow)
    → is_due instances types now locked r ≡ true
    → IsEligible instances types now locked r
unfolding is_due
is_due-IsEligible instances types now locked r h = record {
  approved = ground arith;
  final = ground arith;
  due = λ t e. ground arith;
  armed = is_armed-Memᴰ instances types r (ground arith);
  free = ground arith;
}

-- An armed row has its instance, so the join keeps it.
channel_type_of_armed :
    (instances : List Instance) (types : List String) (r : OutboundRow)
    → is_armed instances types r ≡ true
    → channel_type_of instances r.channel_instance_id ≢ none
channel_type_of_armed [] types r h = cc
channel_type_of_armed (i ∷ is) types r h = ground (arith, channel_type_of_armed is types r)

abbrev pub claimed_key : ClaimedOutbound → ℕ
claimed_key c = c.id

joined_rows-ids :
    (db : Db) (rs : List OutboundRow)
    → All (λ r. channel_type_of db.instances r.channel_instance_id ≢ none) rs
    → map claimed_key (joined_rows db rs) ≡ map row_id rs
unfolding joined_rows joined
joined_rows-ids db [] h = refl
joined_rows-ids db (r ∷ rs) h = ground (arith, joined_rows-ids db rs h.1)

map-stamp-id :
    (now : ℕ) (rs : List OutboundRow) → map row_id (map (stamp now to_sending) rs) ≡ map row_id rs
map-stamp-id now [] = refl
map-stamp-id now (r ∷ rs) = ap (λ l. r.id ∷ l) (map-stamp-id now rs)

length-map_id : (rs : List OutboundRow) → length (map row_id rs) ≡ length rs
length-map_id [] = refl
length-map_id (r ∷ rs) = ap suc (length-map_id rs)

abbrev HasInstance : Db → OutboundRow → Type 0
HasInstance db r = channel_type_of db.instances r.channel_instance_id ≢ none

HasInstance-stamp :
    (db : Db) (now : ℕ) (rs : List OutboundRow)
    → All (HasInstance db) rs
    → All (HasInstance db) (map (stamp now to_sending) rs)
HasInstance-stamp db now [] h = tt
HasInstance-stamp db now (r ∷ rs) h = (h.0, HasInstance-stamp db now rs h.1)

HasInstance-of_due :
    (types : List String) (now : ℕ) (locked : ℕ → Bool) (db : Db) (r : OutboundRow)
    → is_due db.instances types now locked r ≡ true
    → HasInstance db r
unfolding is_due
HasInstance-of_due types now locked db r h =
    channel_type_of_armed db.instances types r (ground arith)

module _ (limit : ℕ) (types : List String) (now : ℕ) (locked : ℕ → Bool) (db : Db) where
  chosen-HasInstance : All (HasInstance db) (chosen limit types now locked db)
  unfolding chosen
  chosen-HasInstance =
      All-take (HasInstance db) limit _
        (All-select (HasInstance db) _ (HasInstance-of_due types now locked db) db.queue)

  pub length-chosen_le : length (chosen limit types now locked db) ≤ limit
  unfolding chosen
  length-chosen_le = length-take_le limit _

  chosen_row :
      (k : ℕ) {r : OutboundRow}
      → HasUniqueKeys row_id db.queue
      → row_at k db ≡ some r
      → member k (map row_id (chosen limit types now locked db)) ≡ true
      → IsEligible db.instances types now locked r
  unfolding chosen
  chosen_row k {r} u e m = is_due-IsEligible db.instances types now locked r (
      select_of_member row_id (is_due db.instances types now locked) k db.queue u e
        (member-take row_id k limit _ m))

  chosen_known :
      (k : ℕ)
      → member k (map row_id (chosen limit types now locked db)) ≡ true
      → (r : OutboundRow) × (row_at k db ≡ some r)
  unfolding chosen
  chosen_known k m = elim (Option-cases (row_at k db)) [
    | inr found ↦ found
    | inl missing ↦
        let listed = member-select row_id _ k db.queue (member-take row_id k limit _ m) in
        let unlisted = find_row_of_member row_id k db.queue missing in cc (sym listed ∙ unlisted)
  ]

  -- The ids that a claim hands over.
  abbrev pub claimed_ids : List ℕ
  claimed_ids = map claimed_key (claim_due limit types now locked db).1

module _ (limit now : ℕ) (locked : ℕ → Bool) (db : Db) where
  claimed_ids_nil : claimed_ids limit [] now locked db ≡ []
  unfolding claim_due
  claimed_ids_nil = refl

  claimed_ids_cons :
      (t : String) (ts : List String)
      → claimed_ids limit (t ∷ ts) now locked db ≡ map row_id (chosen limit (t ∷ ts) now locked db)
  unfolding claim_due
  claimed_ids_cons t ts =
      let rows = chosen limit (t ∷ ts) now locked db in
      joined_rows-ids db (map (stamp now to_sending) rows)
        (HasInstance-stamp db now rows (chosen-HasInstance limit (t ∷ ts) now locked db))
      ∙ map-stamp-id now rows

  row_at-claim_due_nil : (k : ℕ) → row_at k (claim_due limit [] now locked db).0 ≡ row_at k db
  unfolding claim_due
  row_at-claim_due_nil k = refl

  row_at-claim_due_cons :
      (t : String) (ts : List String) (k : ℕ)
      → row_at k (claim_due limit (t ∷ ts) now locked db).0
        ≡ Option.map
            (λ r.
              if member r.id (map row_id (chosen limit (t ∷ ts) now locked db))
              then stamp now to_sending r
              else r)
            (row_at k db)
  unfolding claim_due
  row_at-claim_due_cons t ts k = find_row-update_where row_id _ _ (λ r. refl) k db.queue

-- A claim hands over a row only if the row was eligible: approved, not a draft, due, on an armed
-- channel and not locked by another session; and the row is `sending` from then on. `id` is a
-- primary key.
pub claim_due-IsEligible :
    (limit : ℕ) (types : List String) (now : ℕ) (locked : ℕ → Bool) (db : Db) (k : ℕ)
    → HasUniqueKeys row_id db.queue
    → member k (claimed_ids limit types now locked db) ≡ true
    → (r : OutboundRow) × (row_at k db ≡ some r)
      × IsEligible db.instances types now locked r
      × (row_at k (claim_due limit types now locked db).0 ≡ some (stamp now to_sending r))
claim_due-IsEligible limit [] now locked db k u m =
    absurd (cc (ap (member k) (claimed_ids_nil limit now locked db)))
claim_due-IsEligible limit (t ∷ ts) now locked db k u m =
    let m' = rw (claimed_ids_cons limit now locked db t ts) at m in
    let (r, e) = chosen_known limit (t ∷ ts) now locked db k m' in
    let same = find_row_key row_id k db.queue e in
    (
      r,
      e,
      chosen_row limit (t ∷ ts) now locked db k u e m',
      rw (row_at-claim_due_cons limit now locked db t ts k, e, same, m') refl,
    )

-- A claim leaves every row that it does not hand over as it was.
pub claim_due_leaves_rest :
    (limit : ℕ) (types : List String) (now : ℕ) (locked : ℕ → Bool) (db : Db) (k : ℕ)
    → member k (claimed_ids limit types now locked db) ≡ false
    → row_at k (claim_due limit types now locked db).0 ≡ row_at k db
claim_due_leaves_rest limit [] now locked db k m = row_at-claim_due_nil limit now locked db k
claim_due_leaves_rest limit (t ∷ ts) now locked db k m = elim (Option-cases (row_at k db)) [
  | inl missing ↦ rw (row_at-claim_due_cons limit now locked db t ts k, missing) refl
  | inr (r, e) ↦
      let m' = rw (claimed_ids_cons limit now locked db t ts) at m in
      let same = find_row_key row_id k db.queue e in
      rw (row_at-claim_due_cons limit now locked db t ts k, e, same, m') refl
]

-- A claim keeps the keys of the table unique.
pub claim_due-HasUniqueKeys :
    (limit : ℕ) (types : List String) (now : ℕ) (locked : ℕ → Bool) (db : Db)
    → HasUniqueKeys row_id db.queue
    → HasUniqueKeys row_id (claim_due limit types now locked db).0.queue
unfolding claim_due
claim_due-HasUniqueKeys limit [] now locked db u = u
claim_due-HasUniqueKeys limit (t ∷ ts) now locked db u =
    HasUniqueKeys-update_where row_id _ _ (λ r. refl) db.queue u

pub claim_due-next_id :
    (limit : ℕ) (types : List String) (now : ℕ) (locked : ℕ → Bool) (db : Db)
    → (claim_due limit types now locked db).0.next_id ≡ db.next_id
unfolding claim_due
claim_due-next_id limit [] now locked db = refl
claim_due-next_id limit (t ∷ ts) now locked db = refl

-- A claim hands over at most `limit` rows, and none while no channel is armed.
pub length-claim_due_le :
    (limit : ℕ) (types : List String) (now : ℕ) (locked : ℕ → Bool) (db : Db)
    → length (claimed_ids limit types now locked db) ≤ limit
length-claim_due_le limit [] now locked db = rw (claimed_ids_nil limit now locked db) (omega arith)
length-claim_due_le limit (t ∷ ts) now locked db = rw (claimed_ids_cons limit now locked db t ts) (
    omega (
      arith,
      length-map_id (chosen limit (t ∷ ts) now locked db),
      length-chosen_le limit (t ∷ ts) now locked db,
    ))

-- Two claims, one after the other with no operation between them, share no row, whatever their
-- limits, channels, instants and locks are.
pub claims_disjoint :
    (limit limit' : ℕ) (types types' : List String) (now now' : ℕ) (locked locked' : ℕ → Bool)
    (db : Db) (k : ℕ)
    → HasUniqueKeys row_id db.queue
    → member k (claimed_ids limit types now locked db) ≡ true
    → member k (claimed_ids limit' types' now' locked' (claim_due limit types now locked db).0)
      ≡ false
claims_disjoint limit limit' types types' now now' locked locked' db k u m =
    let db' = (claim_due limit types now locked db).0 in
    let (r, e, eligible, after) = claim_due-IsEligible limit types now locked db k u m in
    elim (Bool-cases (member k (claimed_ids limit' types' now' locked' db'))) [
      | inr no_more ↦ no_more
      | inl again ↦
          let (r', e', eligible', _) =
            claim_due-IsEligible limit' types' now' locked' db' k
              (claim_due-HasUniqueKeys limit types now locked db u) again in
          absurd (ground (arith, eligible'.approved))
    ]

-- A claim hands over no row twice.
pub claimed_ids-Distinct :
    (limit : ℕ) (types : List String) (now : ℕ) (locked : ℕ → Bool) (db : Db)
    → HasUniqueKeys row_id db.queue
    → Distinct (claimed_ids limit types now locked db)
unfolding chosen
claimed_ids-Distinct limit [] now locked db u = rw (claimed_ids_nil limit now locked db) tt
claimed_ids-Distinct limit (t ∷ ts) now locked db u =
    rw (claimed_ids_cons limit now locked db t ts)
      (take-Distinct row_id limit _ (select-Distinct row_id _ db.queue u))
