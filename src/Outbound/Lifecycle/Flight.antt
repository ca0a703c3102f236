-- ===== src/Outbound/Lifecycle/Flight.antt =====
-- The invariant on dispatches, through what a session does with a row that it has claimed.
use mathlib.Core.Option
use mathlib.Core.Path.{subst}
use agent_orchestrator.Base.{
  ℕ, ◌+◌, true, false, String, Bool, Option, some, none, List, [], ◌∷◌, ◌++◌, ◌≡◌, ◌≢◌, refl, arith,
  ◌==◌, ==_iff, if◌then◌else◌, Option-cases, Bool-cases, inl, inr, find_row_key,
  length-select-append, ◌∙◌, sym, ap, map, member, Distinct,
}
use agent_orchestrator.Outbound.Rows.{OutboundRow, row_id, Db}
use agent_orchestrator.Outbound.Queue.{
  ClaimedOutbound, claim_due, stamp, fail_with, review_error, retry_row,
}
use agent_orchestrator.Outbound.Queue.Effects.{
  row_at, changed_at, OneRow, sent_row, deferred_row, mark_sent-OneRow, defer_until-OneRow,
  fail_review-OneRow, retry_later-OneRow,
}
use agent_orchestrator.Outbound.Queue.Claim.{
  claimed_key, claimed_ids, claimed_ids-Distinct, claim_due-IsEligible, claim_due_leaves_rest,
  claim_due-HasUniqueKeys, claim_due-next_id,
}
use agent_orchestrator.Outbound.Drainer.{OutboundMessage, message_of, max_send_attempts}
use agent_orchestrator.Outbound.Lifecycle.{
  Fleet, PutsBack, parks, bars, Records, marks, reviews, retries,
}
use agent_orchestrator.Outbound.Lifecycle.Sound.{attempts, times, Fit, IsSound}

pub attempts-append :
    (j : ℕ) (log : List (ℕ × OutboundMessage)) (k : ℕ) (m : OutboundMessage)
    → attempts j (log ++ (k, m) ∷ []) ≡ attempts j log + (if k == j then 1 else 0)
unfolding attempts
attempts-append j log k m = ground (arith, length-select-append (λ d. d.0 == j) log ((k, m) ∷ []))

pub times-cons :
    (j : ℕ) (row : ClaimedOutbound) (rows : List ClaimedOutbound)
    → times j (row ∷ rows) ≡ times j rows + (if row.id == j then 1 else 0)
unfolding times
times-cons j row rows = ground arith

pub times-append :
    (j : ℕ) (xs ys : List ClaimedOutbound) → times j (xs ++ ys) ≡ times j xs + times j ys
unfolding times
times-append j xs ys = length-select-append (λ c. c.id == j) xs ys

-- Taking one row out.
pub times-out :
    (j : ℕ) (before : List ClaimedOutbound) (row : ClaimedOutbound) (after : List ClaimedOutbound)
    {rows : List ClaimedOutbound}
    → rows ≡ before ++ row ∷ after
    → times j rows ≡ times j (before ++ after) + (if row.id == j then 1 else 0)
times-out j before row after e =
    ap (times j) e
    ∙ omega (
      arith,
      times-append j before (row ∷ after),
      times-append j before after,
      times-cons j row after,
    )

times-Distinct :
    (j : ℕ) (rows : List ClaimedOutbound)
    → Distinct (map claimed_key rows)
    → times j rows ≡ (if member j (map claimed_key rows) then 1 else 0)
unfolding times
times-Distinct j [] d = refl
times-Distinct j (c ∷ cs) d = ground (arith, times-Distinct j cs d.1, ==_iff c.id j)

pub OneRow-apart :
    (k : ℕ) (f : OutboundRow → OutboundRow) (db db' : Db)
    → OneRow k f db db'
    → (j : ℕ) → j ≢ k
    → row_at j db' ≡ row_at j db
OneRow-apart k f db db' one j ne = elim (Option-cases (row_at j db)) [
  | inl gone ↦ one.rows j ∙ ap (Option.map (changed_at k f)) gone ∙ sym gone
  | inr (q, e) ↦ let same = find_row_key row_id j db.queue e in ground (arith, one.rows j)
]

-- A write of the one row under `k`, with what the sessions then hold.
module _ (s : Fleet) (sound : IsSound s) (k : ℕ) (f : OutboundRow → OutboundRow) (db' : Db)
    (one : OneRow k f s.db db') (log : List (ℕ × OutboundMessage))
    (held flying : List ClaimedOutbound) where
  abbrev FitsBefore : ℕ → Option OutboundRow → Type 0
  FitsBefore j o = Fit o (times j s.held) (times j s.flying) (attempts j s.dispatched)

  abbrev FitsAfter : ℕ → Option OutboundRow → Type 0
  FitsAfter j o = Fit o (times j held) (times j flying) (attempts j log)

  written-IsSound :
      ((j : ℕ) → FitsBefore j none → FitsAfter j none)
      → ((j : ℕ) (r : OutboundRow)
          → (k == j) ≡ true
          → FitsBefore j (some r)
          → FitsAfter j (some (f r)))
      → ((j : ℕ) (r : OutboundRow)
          → (k == j) ≡ false
          → FitsBefore j (some r)
          → FitsAfter j (some r))
      → IsSound (record { db = db'; dispatched = log; held = held; flying = flying })
  written-IsSound gone self other = record {
    unique = one.unique sound.unique;
    fresh = λ j h.
        one.rows j ∙ ap (Option.map (changed_at k f)) (sound.fresh j (omega (arith, one.next)));
    fit = λ j. rw (one.rows j) (elim (Option-cases (row_at j s.db)) [
      | inl absent ↦ rw absent (gone j (subst (FitsBefore j) absent (sound.fit j)))
      | inr (r, e) ↦
          let same = find_row_key row_id j s.db.queue e in
          let fits = subst (FitsBefore j) e (sound.fit j) in
          elim (Bool-cases (k == j)) [
            | inl hit ↦
                let hit' : (r.id == k) ≡ true =
                  ground (arith, same, hit, ==_iff k j, ==_iff r.id k) in
                rw (e, hit') (self j r hit fits)
            | inr miss ↦
                let miss' : (r.id == k) ≡ false =
                  ground (arith, same, miss, ==_iff k j, ==_iff r.id k) in
                rw (e, miss') (other j r miss fits)
          ]
    ]);
  }

OneRow-refl : (k : ℕ) (db : Db) → OneRow k (λ r. r) db db
OneRow-refl k db = record {
  rows = λ j. elim (Option-cases (row_at j db)) [
    | inl absent ↦ rw absent refl
    | inr (r, e) ↦
        rw e (elim (Bool-cases (r.id == k)) [ inl hit ↦ rw hit refl | inr miss ↦ rw miss refl ])
  ];
  next = refl;
  unique = λ u. u;
}

module _ (s : Fleet) (sound : IsSound s) (before : List ClaimedOutbound) (row : ClaimedOutbound)
    (after : List ClaimedOutbound) where
  module _ (f : OutboundRow → OutboundRow) (db' : Db) (one : OneRow row.id f s.db db') where
    held_out :
        s.held ≡ before ++ row ∷ after
        → ((j : ℕ) (r : OutboundRow)
            → (row.id == j) ≡ true
            → Fit (some r) (times j s.held) (times j s.flying) (attempts j s.dispatched)
            → Fit
                (some (f r))
                (times j (before ++ after))
                (times j s.flying)
                (attempts j s.dispatched))
        → IsSound (record s { db = db'; held = before ++ after })
    held_out e self =
        written-IsSound s sound row.id f db' one s.dispatched (before ++ after) s.flying
          (λ j h. ground (arith, h, times-out j before row after e)) self
          (λ j r miss h. ground (arith, miss, h, times-out j before row after e))

    flying_out :
        s.flying ≡ before ++ row ∷ after
        → ((j : ℕ) (r : OutboundRow)
            → (row.id == j) ≡ true
            → Fit (some r) (times j s.held) (times j s.flying) (attempts j s.dispatched)
            → Fit
                (some (f r))
                (times j s.held)
                (times j (before ++ after))
                (attempts j s.dispatched))
        → IsSound (record s { db = db'; flying = before ++ after })
    flying_out e self =
        written-IsSound s sound row.id f db' one s.dispatched s.held (before ++ after)
          (λ j h. ground (arith, h, times-out j before row after e)) self
          (λ j r miss h. ground (arith, miss, h, times-out j before row after e))

  pub PutsBack-IsSound :
      {db' : Db}
      → s.held ≡ before ++ row ∷ after
      → PutsBack row s.db db'
      → IsSound (record s { db = db'; held = before ++ after })
  PutsBack-IsSound e (parks now t) =
      held_out (stamp now (deferred_row t)) _ (defer_until-OneRow now row.id s.db t) e
        (λ j r hit h. ground (arith, hit, h, times-out j before row after e))
  PutsBack-IsSound e (bars now reason) =
      held_out (stamp now (fail_with (review_error reason false))) _
        (fail_review-OneRow now row.id s.db reason false) e
        (λ j r hit h. ground (arith, hit, h, times-out j before row after e))

  pub hands_over-IsSound :
      s.held ≡ before ++ row ∷ after
      → IsSound (record s {
        dispatched = s.dispatched ++ (row.id, message_of row) ∷ [];
        held = before ++ after;
        flying = row ∷ s.flying;
      })
  hands_over-IsSound e =
      let out = λ (j : ℕ). times-out j before row after e in
      let log = λ (j : ℕ). attempts-append j s.dispatched row.id (message_of row) in
      let up = λ (j : ℕ). times-cons j row s.flying in
      written-IsSound s sound row.id (λ r. r) s.db (OneRow-refl row.id s.db)
        (s.dispatched ++ (row.id, message_of row) ∷ []) (before ++ after) (row ∷ s.flying)
        (λ j h. ground (arith, h, out j, log j, up j))
        (λ j r hit h. ground (arith, hit, h, out j, log j, up j))
        (λ j r miss h. ground (arith, miss, h, out j, log j, up j))

  pub Records-IsSound :
      {db' : Db}
      → s.flying ≡ before ++ row ∷ after
      → Records row s.db db'
      → IsSound (record s { db = db'; flying = before ++ after })
  Records-IsSound e (marks now provider) =
      flying_out (stamp now (sent_row provider)) _ (mark_sent-OneRow now row.id s.db provider) e
        (λ j r hit h. ground (arith, hit, h, times-out j before row after e))
  Records-IsSound e (reviews now reason possibly) =
      flying_out (stamp now (fail_with (review_error reason possibly))) _
        (fail_review-OneRow now row.id s.db reason possibly) e
        (λ j r hit h. ground (arith, hit, h, times-out j before row after e))
  Records-IsSound e (retries now reason backoff) =
      flying_out (stamp now (retry_row now reason max_send_attempts backoff)) _
        (retry_later-OneRow now row.id s.db reason max_send_attempts backoff) e
        (λ j r hit h. ground (arith, hit, h, times-out j before row after e))

  pub drops_held-IsSound :
      s.held ≡ before ++ row ∷ after → IsSound (record s { held = before ++ after })
  drops_held-IsSound e =
      held_out (λ r. r) s.db (OneRow-refl row.id s.db) e
        (λ j r hit h. ground (arith, hit, h, times-out j before row after e))

  pub drops_flying-IsSound :
      s.flying ≡ before ++ row ∷ after → IsSound (record s { flying = before ++ after })
  drops_flying-IsSound e =
      flying_out (λ r. r) s.db (OneRow-refl row.id s.db) e
        (λ j r hit h. ground (arith, hit, h, times-out j before row after e))

-- A claim moves eligible rows from `approved` to its session.
module _ (s : Fleet) (sound : IsSound s) (limit : ℕ) (types : List String) (now : ℕ)
    (locked : ℕ → Bool) where
  abbrev claimed : List ClaimedOutbound
  claimed = (claim_due limit types now locked s.db).1

  pub times-claimed :
      (j : ℕ)
      → times j (claimed ++ s.held)
        ≡ (if member j (claimed_ids limit types now locked s.db) then 1 else 0) + times j s.held
  times-claimed j = omega (
    arith,
    times-append j claimed s.held,
    times-Distinct j claimed (claimed_ids-Distinct limit types now locked s.db sound.unique),
  )

  pub claims-IsSound :
      IsSound
        (record s { db = (claim_due limit types now locked s.db).0; held = claimed ++ s.held })
  claims-IsSound = record {
    unique = claim_due-HasUniqueKeys limit types now locked s.db sound.unique;
    fresh = λ j h. elim (Bool-cases (member j (claimed_ids limit types now locked s.db))) [
      | inr left ↦
          claim_due_leaves_rest limit types now locked s.db j left
          ∙ sound.fresh j (omega (arith, claim_due-next_id limit types now locked s.db))
      | inl taken ↦
          let (r, e, eligible, at) =
            claim_due-IsEligible limit types now locked s.db j sound.unique taken in
          let gone = sound.fresh j (omega (arith, claim_due-next_id limit types now locked s.db)) in
          absurd (cc (sym gone ∙ e))
    ];
    fit = λ j. elim (Bool-cases (member j (claimed_ids limit types now locked s.db))) [
      | inr left ↦
          let same : times j (claimed ++ s.held) ≡ times j s.held =
            ground (arith, times-claimed j, left) in
          rw (claim_due_leaves_rest limit types now locked s.db j left, same) (sound.fit j)
      | inl taken ↦
          let (r, e, eligible, at) =
            claim_due-IsEligible limit types now locked s.db j sound.unique taken in
          let more : times j (claimed ++ s.held) ≡ 1 + times j s.held =
            ground (arith, times-claimed j, taken) in
          let fits =
            subst (λ o. Fit o (times j s.held) (times j s.flying) (attempts j s.dispatched)) e
              (sound.fit j) in
          rw (at, more) (ground (arith, fits, eligible.approved))
    ];
  }
