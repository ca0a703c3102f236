-- ===== src/Triage/Markers/Exclusion.antt =====
-- Mutual exclusion of src/triage/thread-markers.ts: a thread holds at most one armed capture, also
-- when an arming is cut short.
use agent_orchestrator.Base.{
  ℕ, String, Bool, true, false, not, List, [], ◌∷◌, ◌++◌, map, ◌≡◌, ◌≢◌, inl, inr, refl, sym, ap,
  ◌∙◌, arith, str_eq, eq_iff, select, take, take-added, any, is_some, Bool-cases, All, All-append,
  All-take, All-map, take-map, none,
}
use agent_orchestrator.Base.Json.{JsonCodec}
use agent_orchestrator.AppState.Store.{KeyStore}
use agent_orchestrator.Triage.Markers.{
  MarkerKind, draft_edit, draft_revise, schedule, ask_founder, marker_kinds, same_kind, marker_key,
  StoreOp, clears, sets, run_op, run_ops, stored_text, arm_ops, arm,
}
use agent_orchestrator.Triage.Markers.Keys.{key-kind, key-apart}

pub same_kind-eq : (k j : MarkerKind) → same_kind k j ≡ true → k ≡ j
same_kind-eq draft_edit draft_edit e = refl
same_kind-eq draft_edit draft_revise e = cc
same_kind-eq draft_edit schedule e = cc
same_kind-eq draft_edit ask_founder e = cc
same_kind-eq draft_revise draft_edit e = cc
same_kind-eq draft_revise draft_revise e = refl
same_kind-eq draft_revise schedule e = cc
same_kind-eq draft_revise ask_founder e = cc
same_kind-eq schedule draft_edit e = cc
same_kind-eq schedule draft_revise e = cc
same_kind-eq schedule schedule e = refl
same_kind-eq schedule ask_founder e = cc
same_kind-eq ask_founder draft_edit e = cc
same_kind-eq ask_founder draft_revise e = cc
same_kind-eq ask_founder schedule e = cc
same_kind-eq ask_founder ask_founder e = refl

pub same_kind_refl : (k : MarkerKind) → same_kind k k ≡ true
same_kind_refl draft_edit = refl
same_kind_refl draft_revise = refl
same_kind_refl schedule = refl
same_kind_refl ask_founder = refl

abbrev pub others : MarkerKind → List MarkerKind
others kind = select (λ other. not (same_kind other kind)) marker_kinds

any-others :
    (k kind : MarkerKind) → same_kind k kind ≡ false → any (same_kind k) (others kind) ≡ true
unfolding marker_kinds
any-others k draft_edit ne = ground (arith, ne)
any-others k draft_revise ne = ground (arith, ne)
any-others k schedule ne = ground (arith, ne)
any-others k ask_founder ne = ground (arith, ne)

-- The key that an operation changes.
abbrev key_of : StoreOp → String
key_of (clears k) = k
key_of (sets k v) = k

module _ {ℓ} {S : Type ℓ} (store : KeyStore S) where
  abbrev pub is_armed : MarkerKind → String → S → Bool
  is_armed k t s = is_some (store.get (marker_key k t) s)

  -- At most one kind is armed on the thread.
  abbrev pub Exclusive : String → S → Type 0
  Exclusive t s = (k j : MarkerKind) → is_armed k t s ≡ true → is_armed j t s ≡ true → k ≡ j

  kept :
      (q : String) (ops : List StoreOp) (s : S)
      → All (λ op. q ≢ key_of op) ops
      → store.get q (run_ops store ops s) ≡ store.get q s
  kept q [] s h = refl
  kept q (clears k ∷ ops) s (ne, h) =
      kept q ops (store.clear k s) h ∙ store.get_clear_other k q s ne
  kept q (sets k v ∷ ops) s (ne, h) =
      kept q ops (store.set k v s) h ∙ store.get_set_other k q v s ne

  abbrev pub clearing : String → List MarkerKind → List StoreOp
  clearing t = map (λ other. clears (marker_key other t))

  clear_shrinks :
      (q k : String) (s : S)
      → is_some (store.get q (store.clear k s)) ≡ true
      → is_some (store.get q s) ≡ true
  clear_shrinks q k s here = elim (Bool-cases (str_eq q k)) [
    | inl same ↦ ground (arith, here, same, eq_iff q k, store.get_clear k s)
    | inr apart ↦ ground (arith, here, apart, eq_iff q k, store.get_clear_other k q s)
  ]

  clearing_shrinks :
      (t q : String) (ks : List MarkerKind) (s : S)
      → is_some (store.get q (run_ops store (clearing t ks) s)) ≡ true
      → is_some (store.get q s) ≡ true
  clearing_shrinks t q [] s here = here
  clearing_shrinks t q (k ∷ ks) s here =
      clear_shrinks q (marker_key k t) s
        (clearing_shrinks t q ks (store.clear (marker_key k t) s) here)

  pub run_ops-added :
      (ops : List StoreOp) (op : StoreOp) (s : S)
      → run_ops store (ops ++ op ∷ []) s ≡ run_op store op (run_ops store ops s)
  run_ops-added [] op s = refl
  run_ops-added (o ∷ ops) op s = run_ops-added ops op (run_op store o s)

  module _ (t : String) where
    clearing_disarms :
        (k : MarkerKind) (ks : List MarkerKind) (s : S)
        → any (same_kind k) ks ≡ true
        → is_armed k t (run_ops store (clearing t ks) s) ≡ false
    clearing_disarms k [] s e = cc
    clearing_disarms k (j ∷ ks) s e = elim (Bool-cases (any (same_kind k) ks)) [
      | inl later ↦ clearing_disarms k ks (store.clear (marker_key j t) s) later
      | inr not_later ↦
          let same : k ≡ j = same_kind-eq k j (ground (arith, e, not_later)) in
          elim (Bool-cases (is_armed k t (run_ops store (clearing t (j ∷ ks)) s))) [
            | inr gone ↦ gone
            | inl armed ↦
                let before =
                  clearing_shrinks t (marker_key k t) ks (store.clear (marker_key j t) s) armed in
                let cleared : store.get (marker_key k t) (store.clear (marker_key j t) s) ≡ none =
                  rw same (store.get_clear (marker_key j t) s) in
                ground (arith, before, cleared)
          ]
    ]

    module _ (json : JsonCodec) (now : ℕ) (kind : MarkerKind) (value : String) (s : S) where
      pub arm-only :
          (k : MarkerKind) → is_armed k t (arm store json now kind t value s) ≡ true → k ≡ kind
      unfolding arm arm_ops
      arm-only k here = elim (Bool-cases (same_kind k kind)) [
        | inl same ↦ same_kind-eq k kind same
        | inr apart ↦ ground (
          arith,
          here,
          clearing_disarms k (others kind) s (any-others k kind apart),
          run_ops-added (clearing t (others kind))
              (sets (marker_key kind t) (stored_text json value now)) s,
          store.get_set_other (marker_key kind t) (marker_key k t) (stored_text json value now)
              (run_ops store (clearing t (others kind)) s),
          key-kind k kind t t,
        )
      ]

      other_thread :
          (n : ℕ) (u : String) (k : MarkerKind)
          → u ≢ t
          → is_armed k u (run_ops store (take n (arm_ops json now kind t value)) s) ≡ is_armed k u s
      unfolding arm_ops
      other_thread n u k ne = ap is_some (
          kept (marker_key k u) (take n (arm_ops json now kind t value)) s (
            All-take (λ op. marker_key k u ≢ key_of op) n (arm_ops json now kind t value)
              (All-append (λ op. marker_key k u ≢ key_of op) (clearing t (others kind))
                (sets (marker_key kind t) (stored_text json value now) ∷ [])
                (All-map (λ op. marker_key k u ≢ key_of op) (λ other. clears (marker_key other t))
                  (λ j. key-apart k j u t ne) (others kind))
                (key-apart k kind u t ne, tt))))

      same_thread :
          (n : ℕ)
          → Exclusive t s
          → Exclusive t (run_ops store (take n (arm_ops json now kind t value)) s)
      unfolding arm arm_ops
      same_thread n h k j a b =
          elim (take-added n (clearing t (others kind))
            (sets (marker_key kind t) (stored_text json value now))) [
              | inl e ↦
                  let whole = e ∙ take-map (λ other. clears (marker_key other t)) n (others kind) in
                  h k j
                    (clearing_shrinks t (marker_key k t) (take n (others kind)) s (rw whole at a))
                    (clearing_shrinks t (marker_key j t) (take n (others kind)) s (rw whole at b))
              | inr e ↦ arm-only k (rw e at a) ∙ sym (arm-only j (rw e at b))
            ]

      -- Wherever an arming is cut short, each thread has at most one armed capture, if it had at
      -- most one before; and once it is complete, the kind that it arms is the only one.
      pub arm_cut_short :
          (n : ℕ) (u : String)
          → Exclusive u s
          → Exclusive u (run_ops store (take n (arm_ops json now kind t value)) s)
            × ((k : MarkerKind)
                → is_armed k t (arm store json now kind t value s) ≡ true
                → k ≡ kind)
      arm_cut_short n u h = (
        elim (Bool-cases (str_eq u t)) [
          | inr apart ↦
              let ne : u ≢ t = (λ e. ground (arith, apart, e, eq_iff u t)) in
              λ k j a b. h k j (sym (other_thread n u k ne) ∙ a) (sym (other_thread n u j ne) ∙ b)
          | inl same ↦
              let at_t : u ≡ t = ground (arith, same, eq_iff u t) in
              rw at_t (same_thread n (rw at_t at h))
        ],
        arm-only,
      )
