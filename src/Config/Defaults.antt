-- ===== src/Config/Defaults.antt =====
-- crates/conflux-config/src/types.rs: the builtin topologies and modes, and their defaults.
use conflux_fl.Base.{ℕ, Bool, true, false, Option, none, some, List, [], ◌∷◌, Text, text}
use conflux_fl.Float.{F32, zero_f32}
use conflux_fl.Config.{
  AccountingScope, global, BudgetExhaustedAction, halt, continue_without_guarantee, AuthMode, jwt,
  mtls, Mode, research, production, ConnectionMode, push, pull, SeedMode, fixed, os_random,
  LogFormat, json, Topology, cross_silo, cross_device, crowdsource, edge,
}
use conflux_fl.Config

pub record TopologyDefaults : Type 0 where
  pub connection_mode : ConnectionMode
  pub auth : AuthMode
  pub round_timeout_secs : ℕ
  pub min_reputation_score : F32
  pub client_registry_ttl : ℕ

pub record ModeDefaults : Type 0 where
  pub seed_mode : SeedMode
  pub seed_value : Option ℕ
  pub budget_exhausted_action : BudgetExhaustedAction
  pub accounting_scope : AccountingScope
  pub allow_stub_client : Bool
  pub require_node_auth : Bool
  pub config_log_format : LogFormat

-- `Topology::ALL`, `Mode::ALL`
abbrev pub topologies : List Topology
topologies = cross_silo ∷ cross_device ∷ crowdsource ∷ edge ∷ []

abbrev pub modes : List Mode
modes = research ∷ production ∷ []

unfoldable pub topology_label : Topology → Text
topology_label cross_silo = text "cross_silo"
topology_label cross_device = text "cross_device"
topology_label crowdsource = text "crowdsource"
topology_label edge = text "edge"

unfoldable pub mode_label : Mode → Text
mode_label research = text "research"
mode_label production = text "production"

-- The scores are 0.0, 0.3 and 0.6.
unfoldable pub topology_defaults : Topology → TopologyDefaults
topology_defaults cross_silo = record {
  connection_mode = push;
  auth = mtls;
  round_timeout_secs = 600;
  min_reputation_score = zero_f32;
  client_registry_ttl = 3600;
}
topology_defaults cross_device = record {
  connection_mode = pull;
  auth = jwt;
  round_timeout_secs = 300;
  min_reputation_score = 0x3e99999a;
  client_registry_ttl = 900;
}
topology_defaults crowdsource = record {
  connection_mode = pull;
  auth = jwt;
  round_timeout_secs = 300;
  min_reputation_score = 0x3f19999a;
  client_registry_ttl = 900;
}
topology_defaults edge = record {
  connection_mode = pull;
  auth = mtls;
  round_timeout_secs = 900;
  min_reputation_score = zero_f32;
  client_registry_ttl = 3600;
}

unfoldable pub mode_defaults : Mode → ModeDefaults
mode_defaults research = record {
  seed_mode = fixed;
  seed_value = some 42;
  budget_exhausted_action = continue_without_guarantee;
  accounting_scope = global;
  allow_stub_client = true;
  require_node_auth = false;
  config_log_format = Config.text;
}
mode_defaults production = record {
  seed_mode = os_random;
  seed_value = none;
  budget_exhausted_action = halt;
  accounting_scope = global;
  allow_stub_client = false;
  require_node_auth = true;
  config_log_format = json;
}
