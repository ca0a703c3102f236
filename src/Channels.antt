-- ===== src/Channels.antt =====
-- src/adapters/channel-registry.ts: one adapter for each active channel instance. `Adapter` and the
-- three factories are parameters; a factory that throws answers `none`.
pub mod Laws
mod Tests
use text.Mathlib.Text.{◌==◌ as str_eq}
use agent_orchestrator.Base.{
  String, Bool, true, false, ◌&&◌, Option, some, none, List, [], ◌∷◌, if◌then◌else◌, select, first,
  map, get_or_else, is_some,
}

pub record ChannelInstanceRow (Json : Type 0) : Type 0 where
  pub id : String
  pub channel_type : String
  pub provider : String
  pub name : String
  pub config : Option Json
  pub credentials_ref : Option String
  pub status : String

pub record ChannelInstanceConfig (Json : Type 0) : Type 0 where
  pub id : String
  pub channel_type : String
  pub provider : String
  pub name : String
  pub config : Json
  pub credentials_ref : String

pub data ChannelState : Type 0 where
  ready unimplemented : ChannelState

abbrev pub is_ready : ChannelState → Bool
is_ready ready = true
is_ready unimplemented = false

pub record RegisteredChannel (Json Adapter : Type 0) : Type 0 where
  pub instance : ChannelInstanceConfig Json
  pub adapter : Option Adapter
  pub state : ChannelState

pub record Factories (Json Adapter : Type 0) : Type 0 where
  pub whatsapp : ChannelInstanceConfig Json → Option Adapter
  pub email : ChannelInstanceConfig Json → Option Adapter
  pub service_desk : ChannelInstanceConfig Json → Option Adapter
  pub empty_config : Json

abbrev pub is_active : {Json : Type 0} → ChannelInstanceRow Json → Bool
is_active row = str_eq row.status "active"

module _ {Json Adapter : Type 0} (factories : Factories Json Adapter) where
  pub to_config : ChannelInstanceRow Json → ChannelInstanceConfig Json
  to_config row = record {
    id = row.id;
    channel_type = row.channel_type;
    provider = row.provider;
    name = row.name;
    config = get_or_else row.config factories.empty_config;
    credentials_ref = get_or_else row.credentials_ref "";
  }

  abbrev built : ChannelInstanceConfig Json → Option Adapter → RegisteredChannel Json Adapter
  built instance none = record { instance = instance; adapter = none; state = unimplemented }
  built instance (some a) = record { instance = instance; adapter = some a; state = ready }

  -- The switch over the provider, and what a provider that is not implemented comes to.
  pub build : ChannelInstanceConfig Json → Option Adapter
  build instance =
      if str_eq instance.provider "whatsapp_manager"
      then factories.whatsapp instance
      else (if str_eq instance.provider "gmail"
          then factories.email instance
          else (if str_eq instance.provider "ezy_service_desk"
              then factories.service_desk instance
              else none))

  pub register : ChannelInstanceRow Json → RegisteredChannel Json Adapter
  register row = built (to_config row) (build (to_config row))

  -- `rows` are in the order of their names; an id is a primary key, so that `Map.set` appends.
  pub load : List (ChannelInstanceRow Json) → List (RegisteredChannel Json Adapter)
  load rows = map register (select is_active rows)

abbrev pub channel_of : {Json Adapter : Type 0} → String → RegisteredChannel Json Adapter → Bool
channel_of k c = str_eq c.instance.id k

abbrev pub of_provider : {Json Adapter : Type 0} → String → RegisteredChannel Json Adapter → Bool
of_provider provider c = str_eq c.instance.provider provider && is_some c.adapter

module _ {Json Adapter : Type 0} (registry : List (RegisteredChannel Json Adapter)) where
  pub get_channel : String → Option (RegisteredChannel Json Adapter)
  get_channel k = first (select (channel_of k) registry)

  pub ready_channels : List (RegisteredChannel Json Adapter)
  ready_channels = select (λ c. is_ready c.state) registry

  pub whatsapp_primary : Option (RegisteredChannel Json Adapter)
  whatsapp_primary = first (select (of_provider "whatsapp_manager") registry)

  pub email_adapters : List (RegisteredChannel Json Adapter)
  email_adapters = select (of_provider "gmail") ready_channels

  pub service_desk_adapters : List (RegisteredChannel Json Adapter)
  service_desk_adapters = select (of_provider "ezy_service_desk") ready_channels
