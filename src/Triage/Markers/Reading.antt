-- ===== src/Triage/Markers/Reading.antt =====
-- What src/triage/thread-markers.ts reads of a marker that was armed, and for how long.
use agent_orchestrator.Base.{
  ℕ, ◌+◌, ◌-◌, ◌*◌, String, true, false, some, none, ◌≡◌, inl, inr, refl, ap, ◌∙◌, arith, leb,
  if◌then◌else◌, is_some, Option-cases, Bool-cases,
}
use agent_orchestrator.Base.Json.{JsonCodec, Reads}
use agent_orchestrator.AppState.Store.{KeyStore}
use agent_orchestrator.Triage.Markers.{
  MarkerKind, same_kind, marker_key, marker_ttl_ms, marker_json, sets, stored_text, run_ops,
  arm_ops, arm, parse_marker, read, clear,
}
use agent_orchestrator.Triage.Markers.Exclusion.{
  others, clearing, run_ops-added, arm-only, same_kind-eq, same_kind_refl,
}

parse-stored :
    (json : JsonCodec) (value : String) (now : ℕ)
    → Reads json (marker_json (record { value = value; armed_at = now }))
    → parse_marker json (stored_text json value now)
      ≡ some (record { value = value; armed_at = now })
unfolding parse_marker
parse-stored json value now reads = rw reads.0 refl

-- A cleared marker reads as absent, at any time.
pub read-clear {ℓ} :
    {S : Type ℓ} (store : KeyStore S) (json : JsonCodec) (kind : MarkerKind) (t : String)
    (later : ℕ) (s : S)
    → read store json later kind t (clear store kind t s) ≡ (clear store kind t s, none)
unfolding read clear
read-clear store json kind t later s = rw (store.get_clear (marker_key kind t) s) refl

module _ {ℓ} {S : Type ℓ} (store : KeyStore S) (json : JsonCodec) (now : ℕ) (kind : MarkerKind)
    (t value : String) (s : S) where
  get-arm :
      store.get (marker_key kind t) (arm store json now kind t value s)
      ≡ some (stored_text json value now)
  unfolding arm arm_ops
  get-arm =
      ap (store.get (marker_key kind t)) (
        run_ops-added store (clearing store t (others kind))
          (sets (marker_key kind t) (stored_text json value now)) s)
      ∙ store.get_set (marker_key kind t) (stored_text json value now)
          (run_ops store (clearing store t (others kind)) s)

  -- After a capture is armed, its kind reads back its value until half an hour has passed, and from
  -- then on it reads as absent and its key is cleared; every other kind of the thread reads as absent.
  -- The stored text is one that JSON reads back.
  pub read-arm :
      (k : MarkerKind) (later : ℕ)
      → Reads json (marker_json (record { value = value; armed_at = now }))
      → read store json later k t (arm store json now kind t value s) ≡ (
          if same_kind k kind
          then (if leb (now + marker_ttl_ms) later
              then (clear store kind t (arm store json now kind t value s), none)
              else (arm store json now kind t value s, some value))
          else (arm store json now kind t value s, none))
  unfolding read clear marker_ttl_ms
  read-arm k later reads = elim (Bool-cases (same_kind k kind)) [
    | inl same ↦
        let k_is : k ≡ kind = same_kind-eq k kind same in
        rw (same, k_is, get-arm, parse-stored json value now reads)
          (elim (Bool-cases (leb (now + 30 * 60000) later)) [
            | inl late ↦
                let old : leb (30 * 60000) (later - now) ≡ true = ground (arith, late) in
                rw (late, old) refl
            | inr fresh ↦
                let young : leb (30 * 60000) (later - now) ≡ false = ground (arith, fresh) in
                rw (fresh, young) refl
          ])
    | inr apart ↦
        rw apart
          (elim (Option-cases (store.get (marker_key k t) (arm store json now kind t value s))) [
            | inl absent ↦ rw absent refl
            | inr (raw, e) ↦
                let k_is : k ≡ kind = arm-only store t json now kind value s k (ap is_some e) in
                ground (arith, apart, k_is, same_kind_refl kind)
          ])
  ]
