-- ===== src/Channels/Tests.antt =====
-- The registry of src/adapters/channel-registry.ts at concrete rows.
use agent_orchestrator.Base.{ℕ, String, some, none, List, [], ◌∷◌}
use agent_orchestrator.Channels.{ChannelInstanceRow, Factories}

abbrev row_of : String → String → ChannelInstanceRow ℕ
row_of k provider = record {
  id = k;
  channel_type = "email";
  provider = provider;
  name = k;
  config = none;
  credentials_ref = none;
  status = "active";
}

-- The email factory throws.
abbrev factories : Factories ℕ ℕ
factories = record {
  whatsapp = λ instance. some 1;
  email = λ instance. none;
  service_desk = λ instance. some 3;
  empty_config = 0;
}

abbrev rows : List (ChannelInstanceRow ℕ)
rows = row_of "a" "gmail" ∷ row_of "b" "whatsapp_manager" ∷ row_of "c" "telex" ∷ []
