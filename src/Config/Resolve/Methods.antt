-- ===== src/Config/Resolve/Methods.antt =====
-- crates/conflux-config/src/lib.rs, `resolve_with_profiles`: the parameters of the aggregation methods.
use conflux_fl.Base.{ℕ, Bool, false, none, Text, text}
use conflux_fl.Float.{F32, zero_f32, one_f32}
use conflux_fl.Config.Resolve.{Resolved, Tiers}
use conflux_fl.Config.Resolve.Layer.{
  layer, and_then, file_overrides, file_source, topology_source, mode_source, credited,
}

unfoldable pub aggregator : Tiers → Resolved Text
unfolding layer
aggregator t =
    layer (text "fedavg") none none (and_then (file_overrides t) (λ o. o.aggregator))
      t.env.aggregator t.cli.aggregator (topology_source t) (mode_source t) (file_source t)
      (credited (text "AGGREGATOR"))

unfoldable pub robust_byzantine_fraction : Tiers → Resolved F32
unfolding layer
robust_byzantine_fraction t =
    layer 0x3e4ccccd none none (and_then (file_overrides t) (λ o. o.robust_byzantine_fraction))
      t.env.robust_byzantine_fraction t.cli.robust_byzantine_fraction (topology_source t)
      (mode_source t) (file_source t) (credited (text "ROBUST_BYZANTINE_FRACTION"))

unfoldable pub clip_radius : Tiers → Resolved F32
unfolding layer
clip_radius t =
    layer one_f32 none none (and_then (file_overrides t) (λ o. o.clip_radius)) t.env.clip_radius
      t.cli.clip_radius (topology_source t) (mode_source t) (file_source t)
      (credited (text "CLIP_RADIUS"))

unfoldable pub server_learning_rate : Tiers → Resolved F32
unfolding layer
server_learning_rate t =
    layer one_f32 none none (and_then (file_overrides t) (λ o. o.server_learning_rate))
      t.env.server_learning_rate t.cli.server_learning_rate (topology_source t) (mode_source t)
      (file_source t) (credited (text "SERVER_LEARNING_RATE"))

unfoldable pub server_tau : Tiers → Resolved F32
unfolding layer
server_tau t =
    layer 0x3a83126f none none (and_then (file_overrides t) (λ o. o.server_tau)) t.env.server_tau
      t.cli.server_tau (topology_source t) (mode_source t) (file_source t)
      (credited (text "SERVER_TAU"))

unfoldable pub server_momentum : Tiers → Resolved F32
unfolding layer
server_momentum t =
    layer 0x3f666666 none none (and_then (file_overrides t) (λ o. o.server_momentum))
      t.env.server_momentum t.cli.server_momentum (topology_source t) (mode_source t)
      (file_source t) (credited (text "SERVER_MOMENTUM"))

unfoldable pub fairness_q : Tiers → Resolved F32
unfolding layer
fairness_q t =
    layer zero_f32 none none (and_then (file_overrides t) (λ o. o.fairness_q)) t.env.fairness_q
      t.cli.fairness_q (topology_source t) (mode_source t) (file_source t)
      (credited (text "FAIRNESS_Q"))

unfoldable pub scaffold_num_clients : Tiers → Resolved ℕ
unfolding layer
scaffold_num_clients t =
    layer 1 none none (and_then (file_overrides t) (λ o. o.scaffold_num_clients))
      t.env.scaffold_num_clients t.cli.scaffold_num_clients (topology_source t) (mode_source t)
      (file_source t) (credited (text "SCAFFOLD_NUM_CLIENTS"))

unfoldable pub zeno_rho : Tiers → Resolved F32
unfolding layer
zeno_rho t =
    layer 0x3a03126f none none (and_then (file_overrides t) (λ o. o.zeno_rho)) t.env.zeno_rho
      t.cli.zeno_rho (topology_source t) (mode_source t) (file_source t)
      (credited (text "ZENO_RHO"))

unfoldable pub server_lipschitz : Tiers → Resolved F32
unfolding layer
server_lipschitz t =
    layer one_f32 none none (and_then (file_overrides t) (λ o. o.server_lipschitz))
      t.env.server_lipschitz t.cli.server_lipschitz (topology_source t) (mode_source t)
      (file_source t) (credited (text "SERVER_LIPSCHITZ"))

unfoldable pub reputation_filter_enabled : Tiers → Resolved Bool
unfolding layer
reputation_filter_enabled t =
    layer false none none (and_then (file_overrides t) (λ o. o.reputation_filter_enabled))
      t.env.reputation_filter_enabled t.cli.reputation_filter_enabled (topology_source t)
      (mode_source t) (file_source t) (credited (text "REPUTATION_FILTER_ENABLED"))
