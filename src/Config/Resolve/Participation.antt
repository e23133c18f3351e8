-- ===== src/Config/Resolve/Participation.antt =====
-- crates/conflux-config/src/lib.rs, `resolve_with_profiles`: the parameters of a round: who takes part, how long it waits, how many it needs.
use conflux_fl.Base.{ℕ, ◌*◌, Option, none, some, Text, text}
use mathlib.Core.Option
use conflux_fl.Float.{F32}
use conflux_fl.Config.{AuthMode, ConnectionMode, SeedMode}
use conflux_fl.Config.Resolve.{Resolved, ConfigSource, Tiers}
use conflux_fl.Config.Resolve.Layer.{
  layer, and_then, file_overrides, file_source, topology_source, mode_source, topo_src, mode_src,
  credited,
}

unfoldable pub connection_mode : Tiers → Resolved ConnectionMode
unfolding layer
connection_mode t =
    layer t.topology.defaults.connection_mode (some t.topology.defaults.connection_mode) none
      (and_then (file_overrides t) (λ o. o.connection_mode)) t.env.connection_mode
      t.cli.connection_mode (topo_src t (text "connection_mode")) (mode_source t) (file_source t)
      (credited (text "CONNECTION_MODE"))

unfoldable pub auth : Tiers → Resolved AuthMode
unfolding layer
auth t =
    layer t.topology.defaults.auth (some t.topology.defaults.auth) none
      (and_then (file_overrides t) (λ o. o.auth)) t.env.auth t.cli.auth (topo_src t (text "auth"))
      (mode_source t) (file_source t) (credited (text "AUTH"))

unfoldable pub round_timeout_secs : Tiers → Resolved ℕ
unfolding layer
round_timeout_secs t =
    layer t.topology.defaults.round_timeout_secs (some t.topology.defaults.round_timeout_secs) none
      (and_then (file_overrides t) (λ o. o.round_timeout_secs)) t.env.round_timeout_secs
      t.cli.round_timeout_secs (topo_src t (text "round_timeout_secs")) (mode_source t)
      (file_source t) (credited (text "ROUND_TIMEOUT_SECS"))

unfoldable pub min_reputation_score : Tiers → Resolved F32
unfolding layer
min_reputation_score t =
    layer t.topology.defaults.min_reputation_score (some t.topology.defaults.min_reputation_score)
      none (and_then (file_overrides t) (λ o. o.min_reputation_score)) t.env.min_reputation_score
      t.cli.min_reputation_score (topo_src t (text "min_reputation_score")) (mode_source t)
      (file_source t) (credited (text "MIN_REPUTATION_SCORE"))

unfoldable pub client_registry_ttl : Tiers → Resolved ℕ
unfolding layer
client_registry_ttl t =
    layer t.topology.defaults.client_registry_ttl (some t.topology.defaults.client_registry_ttl)
      none (and_then (file_overrides t) (λ o. o.client_registry_ttl)) t.env.client_registry_ttl
      t.cli.client_registry_ttl (topo_src t (text "client_registry_ttl")) (mode_source t)
      (file_source t) (credited (text "CLIENT_REGISTRY_TTL"))

unfoldable pub pick_quorum : Option ℕ → Option ℕ → Option ℕ → ConfigSource → Option (Resolved ℕ)
pick_quorum (some value) env file fs = some (record { value = value; source = ConfigSource.cli })
pick_quorum none (some value) file fs =
    some (record { value = value; source = credited (text "QUORUM") })
pick_quorum none none (some value) fs = some (record { value = value; source = fs })
pick_quorum none none none fs = none

-- `quorum` has no fallback: none where no tier sets it.
unfoldable pub quorum : Tiers → Option (Resolved ℕ)
unfolding pick_quorum
quorum t =
    pick_quorum t.cli.quorum t.env.quorum (and_then (file_overrides t) (λ o. o.quorum))
      (file_source t)

unfoldable pub max_update_bytes : Tiers → Resolved ℕ
unfolding layer
max_update_bytes t =
    layer (256 * 1024 * 1024) none none (and_then (file_overrides t) (λ o. o.max_update_bytes))
      t.env.max_update_bytes t.cli.max_update_bytes (topology_source t) (mode_source t)
      (file_source t) (credited (text "MAX_UPDATE_BYTES"))

unfoldable pub selector : Tiers → Resolved Text
unfolding layer
selector t =
    layer (text "uniform_random") none none (and_then (file_overrides t) (λ o. o.selector))
      t.env.selector t.cli.selector (topology_source t) (mode_source t) (file_source t)
      (credited (text "SELECTOR"))

unfoldable pub seed_mode : Tiers → Resolved SeedMode
unfolding layer
seed_mode t =
    layer t.mode.defaults.seed_mode none (some t.mode.defaults.seed_mode)
      (and_then (file_overrides t) (λ o. o.seed_mode)) t.env.seed_mode t.cli.seed_mode
      (topology_source t) (mode_src t (text "seed_mode")) (file_source t)
      (credited (text "SEED_MODE"))

unfoldable pub seed_value : Tiers → Resolved (Option ℕ)
unfolding layer
seed_value t =
    layer t.mode.defaults.seed_value none (some t.mode.defaults.seed_value)
      (Option.map some (and_then (file_overrides t) (λ o. o.seed_value)))
      (Option.map some t.env.seed_value) (Option.map some t.cli.seed_value) (topology_source t)
      (mode_src t (text "seed_value")) (file_source t) (credited (text "SEED_VALUE"))
