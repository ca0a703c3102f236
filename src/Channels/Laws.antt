-- ===== src/Channels/Laws.antt =====
-- What src/adapters/channel-registry.ts loads.
use text.Mathlib.Text.{◌==◌ as str_eq}
use mathlib.Core.Option
use agent_orchestrator.Base.{
  String, ◌&&◌, List, [], ◌∷◌, ◌≡◌, refl, select, first, map, is_some, All, inl, inr, Option-cases,
  Bool-cases,
}
use agent_orchestrator.Channels.{
  ChannelInstanceRow, is_ready, RegisteredChannel, Factories, to_config, build, register, is_active,
  load, get_channel, channel_of,
}

module _ {Json Adapter : Type 0} (factories : Factories Json Adapter) where
  -- A channel is ready exactly if it has an adapter.
  abbrev pub IsConsistent : RegisteredChannel Json Adapter → Type 0
  IsConsistent c = is_ready c.state ≡ is_some c.adapter

  register-IsConsistent : (row : ChannelInstanceRow Json) → IsConsistent (register factories row)
  unfolding register
  register-IsConsistent row = elim (Option-cases (build factories (to_config factories row))) [
    | inl failed ↦ rw failed refl
    | inr (a, e) ↦ rw e refl
  ]

  map-IsConsistent :
      (rows : List (ChannelInstanceRow Json)) → All IsConsistent (map (register factories) rows)
  map-IsConsistent [] = tt
  map-IsConsistent (row ∷ rows) = (register-IsConsistent row, map-IsConsistent rows)

  -- Loading never fails, and every channel that it registers is ready exactly if it has an adapter.
  load-IsConsistent :
      (rows : List (ChannelInstanceRow Json)) → All IsConsistent (load factories rows)
  unfolding load
  load-IsConsistent rows = map-IsConsistent (select is_active rows)

  register_id : (row : ChannelInstanceRow Json) → (register factories row).instance.id ≡ row.id
  unfolding register to_config
  register_id row = elim (Option-cases (build factories (to_config factories row))) [
    | inl failed ↦ rw failed refl
    | inr (a, e) ↦ rw e refl
  ]

  first-select-register :
      (k : String) (rows : List (ChannelInstanceRow Json))
      → first (select (channel_of k) (map (register factories) (select is_active rows)))
        ≡ Option.map
            (register factories)
            (first (select (λ row. is_active row && str_eq row.id k) rows))
  unfolding register
  first-select-register k [] = refl
  first-select-register k (row ∷ rows) = elim (Bool-cases (is_active row)) [
    | inr off ↦ rw off (first-select-register k rows)
    | inl on ↦ elim (Bool-cases (str_eq row.id k)) [
      | inl same ↦ rw (on, register_id row, same) refl
      | inr other ↦ rw (on, register_id row, other) (first-select-register k rows)
    ]
  ]

  -- Each active instance is registered, whatever becomes of the others: the channel under an id is the
  -- registration of the first active row with that id, and there is none where no active row has it.
  get_channel-load :
      (k : String) (rows : List (ChannelInstanceRow Json))
      → get_channel (load factories rows) k
        ≡ Option.map
            (register factories)
            (first (select (λ row. is_active row && str_eq row.id k) rows))
  unfolding get_channel load
  get_channel-load k rows = first-select-register k rows
