-- ===== src/Config/Resolve/Privacy.antt =====
-- crates/conflux-config/src/lib.rs, `resolve_with_profiles`: the parameters of privacy and accounting, and of what is logged.
use conflux_fl.Base.{ℕ, Bool, false, none, some, Text, text}
use conflux_fl.Float.{F32, F64, one_f32}
use conflux_fl.Config.{
  AccountingScope, BudgetExhaustedAction, RoundLogDetail, AuthMode, ConnectionMode, SeedMode,
  LogFormat,
}
use conflux_fl.Config
use conflux_fl.Config.Resolve.{Resolved, Tiers}
use conflux_fl.Config.Resolve.Layer.{
  layer, and_then, file_overrides, file_source, topology_source, mode_source, mode_src, credited,
}

unfoldable pub client_side_privacy_transform : Tiers → Resolved Bool
unfolding layer
client_side_privacy_transform t =
    layer false none none (and_then (file_overrides t) (λ o. o.client_side_privacy_transform))
      t.env.client_side_privacy_transform t.cli.client_side_privacy_transform (topology_source t)
      (mode_source t) (file_source t) (credited (text "CLIENT_SIDE_PRIVACY_TRANSFORM"))

unfoldable pub privacy_mechanism : Tiers → Resolved Text
unfolding layer
privacy_mechanism t =
    layer (text "gaussian_clipping") none none
      (and_then (file_overrides t) (λ o. o.privacy_mechanism)) t.env.privacy_mechanism
      t.cli.privacy_mechanism (topology_source t) (mode_source t) (file_source t)
      (credited (text "PRIVACY_MECHANISM"))

unfoldable pub clip_norm : Tiers → Resolved F32
unfolding layer
clip_norm t =
    layer one_f32 none none (and_then (file_overrides t) (λ o. o.clip_norm)) t.env.clip_norm
      t.cli.clip_norm (topology_source t) (mode_source t) (file_source t)
      (credited (text "CLIP_NORM"))

unfoldable pub noise_multiplier : Tiers → Resolved F32
unfolding layer
noise_multiplier t =
    layer one_f32 none none (and_then (file_overrides t) (λ o. o.noise_multiplier))
      t.env.noise_multiplier t.cli.noise_multiplier (topology_source t) (mode_source t)
      (file_source t) (credited (text "NOISE_MULTIPLIER"))

unfoldable pub target_epsilon : Tiers → Resolved F64
unfolding layer
target_epsilon t =
    layer 0x4020000000000000 none none (and_then (file_overrides t) (λ o. o.target_epsilon))
      t.env.target_epsilon t.cli.target_epsilon (topology_source t) (mode_source t) (file_source t)
      (credited (text "TARGET_EPSILON"))

unfoldable pub delta : Tiers → Resolved F64
unfolding layer
delta t =
    layer 0x3ee4f8b588e368f1 none none (and_then (file_overrides t) (λ o. o.delta)) t.env.delta
      t.cli.delta (topology_source t) (mode_source t) (file_source t) (credited (text "DELTA"))

unfoldable pub budget_exhausted_action : Tiers → Resolved BudgetExhaustedAction
unfolding layer
budget_exhausted_action t =
    layer t.mode.defaults.budget_exhausted_action none
      (some t.mode.defaults.budget_exhausted_action)
      (and_then (file_overrides t) (λ o. o.budget_exhausted_action)) t.env.budget_exhausted_action
      t.cli.budget_exhausted_action (topology_source t)
      (mode_src t (text "budget_exhausted_action")) (file_source t)
      (credited (text "BUDGET_EXHAUSTED_ACTION"))

unfoldable pub accounting_scope : Tiers → Resolved AccountingScope
unfolding layer
accounting_scope t =
    layer t.mode.defaults.accounting_scope none (some t.mode.defaults.accounting_scope)
      (and_then (file_overrides t) (λ o. o.accounting_scope)) t.env.accounting_scope
      t.cli.accounting_scope (topology_source t) (mode_src t (text "accounting_scope"))
      (file_source t) (credited (text "ACCOUNTING_SCOPE"))

unfoldable pub allow_stub_client : Tiers → Resolved Bool
unfolding layer
allow_stub_client t =
    layer t.mode.defaults.allow_stub_client none (some t.mode.defaults.allow_stub_client)
      (and_then (file_overrides t) (λ o. o.allow_stub_client)) t.env.allow_stub_client
      t.cli.allow_stub_client (topology_source t) (mode_src t (text "allow_stub_client"))
      (file_source t) (credited (text "ALLOW_STUB_CLIENT"))

unfoldable pub require_node_auth : Tiers → Resolved Bool
unfolding layer
require_node_auth t =
    layer t.mode.defaults.require_node_auth none (some t.mode.defaults.require_node_auth)
      (and_then (file_overrides t) (λ o. o.require_node_auth)) t.env.require_node_auth
      t.cli.require_node_auth (topology_source t) (mode_src t (text "require_node_auth"))
      (file_source t) (credited (text "REQUIRE_NODE_AUTH"))

unfoldable pub config_log_format : Tiers → Resolved LogFormat
unfolding layer
config_log_format t =
    layer t.mode.defaults.config_log_format none (some t.mode.defaults.config_log_format)
      (and_then (file_overrides t) (λ o. o.config_log_format)) t.env.config_log_format
      t.cli.config_log_format (topology_source t) (mode_src t (text "config_log_format"))
      (file_source t) (credited (text "CONFIG_LOG_FORMAT"))

unfoldable pub round_log_detail : Tiers → Resolved RoundLogDetail
unfolding layer
round_log_detail t =
    layer Config.changes none none (and_then (file_overrides t) (λ o. o.round_log_detail))
      t.env.round_log_detail t.cli.round_log_detail (topology_source t) (mode_source t)
      (file_source t) (credited (text "ROUND_LOG_DETAIL"))

unfoldable pub round_history_len : Tiers → Resolved ℕ
unfolding layer
round_history_len t =
    layer 128 none none (and_then (file_overrides t) (λ o. o.round_history_len))
      t.env.round_history_len t.cli.round_history_len (topology_source t) (mode_source t)
      (file_source t) (credited (text "ROUND_HISTORY_LEN"))
