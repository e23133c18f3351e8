-- ===== src/Config/Axis/Modes.antt =====
-- crates/conflux-config/src/profile.rs: `MODE_KEYS` and `apply_mode_key`.
use conflux_fl.Base.{
  ℕ, ◌≡◌, inl, inr, refl, Bool, Option, none, some, List, [], ◌∷◌, Text, text, Text-discrete,
  Result, ok, ite, Any, ◌>>=◌,
}
use conflux_fl.Config.{AccountingScope, BudgetExhaustedAction, Mode, SeedMode, LogFormat}
use conflux_fl.Config.Axis.{Toml, Axis, ModeKey}
use conflux_fl.Config.Defaults.{ModeDefaults, modes, mode_label, mode_defaults}

abbrev pub mode_keys : List ModeKey
mode_keys =
    ModeKey.seed_mode ∷ ModeKey.seed_value ∷ ModeKey.budget_exhausted_action
    ∷ ModeKey.accounting_scope ∷ ModeKey.allow_stub_client ∷ ModeKey.require_node_auth
    ∷ ModeKey.config_log_format ∷ []

abbrev pub mode_key_name : ModeKey → Text
mode_key_name ModeKey.seed_mode = text "seed_mode"
mode_key_name ModeKey.seed_value = text "seed_value"
mode_key_name ModeKey.budget_exhausted_action = text "budget_exhausted_action"
mode_key_name ModeKey.accounting_scope = text "accounting_scope"
mode_key_name ModeKey.allow_stub_client = text "allow_stub_client"
mode_key_name ModeKey.require_node_auth = text "require_node_auth"
mode_key_name ModeKey.config_log_format = text "config_log_format"

-- The patterns of `match key`.
unfoldable pub mode_key_of : Text → Option ModeKey
unfolding Text-discrete
mode_key_of key = ite (Text-discrete key (text "seed_mode")) (some ModeKey.seed_mode) (
    ite (Text-discrete key (text "seed_value")) (some ModeKey.seed_value) (
      ite (Text-discrete key (text "budget_exhausted_action"))
        (some ModeKey.budget_exhausted_action)
        (ite (Text-discrete key (text "accounting_scope")) (some ModeKey.accounting_scope) (
          ite (Text-discrete key (text "allow_stub_client")) (some ModeKey.allow_stub_client) (
            ite (Text-discrete key (text "require_node_auth")) (some ModeKey.require_node_auth) (
              ite (Text-discrete key (text "config_log_format")) (some ModeKey.config_log_format)
                (none)))))))

abbrev pub ModeValue : ModeKey → Type 0
ModeValue ModeKey.seed_mode = SeedMode
ModeValue ModeKey.seed_value = Option ℕ
ModeValue ModeKey.budget_exhausted_action = BudgetExhaustedAction
ModeValue ModeKey.accounting_scope = AccountingScope
ModeValue ModeKey.allow_stub_client = Bool
ModeValue ModeKey.require_node_auth = Bool
ModeValue ModeKey.config_log_format = LogFormat

unfoldable pub get_mode : (k : ModeKey) → ModeDefaults → ModeValue k
get_mode ModeKey.seed_mode d = d.seed_mode
get_mode ModeKey.seed_value d = d.seed_value
get_mode ModeKey.budget_exhausted_action d = d.budget_exhausted_action
get_mode ModeKey.accounting_scope d = d.accounting_scope
get_mode ModeKey.allow_stub_client d = d.allow_stub_client
get_mode ModeKey.require_node_auth d = d.require_node_auth
get_mode ModeKey.config_log_format d = d.config_log_format

unfoldable pub set_mode : (k : ModeKey) → ModeValue k → ModeDefaults → ModeDefaults
set_mode ModeKey.seed_mode v d = record d { seed_mode = v }
set_mode ModeKey.seed_value v d = record d { seed_value = v }
set_mode ModeKey.budget_exhausted_action v d = record d { budget_exhausted_action = v }
set_mode ModeKey.accounting_scope v d = record d { accounting_scope = v }
set_mode ModeKey.allow_stub_client v d = record d { allow_stub_client = v }
set_mode ModeKey.require_node_auth v d = record d { require_node_auth = v }
set_mode ModeKey.config_log_format v d = record d { config_log_format = v }

pub ModeKey-discrete : Discrete ModeKey
ModeKey-discrete = hlevel

pub key_of-key_name_mode : (k : ModeKey) → mode_key_of (mode_key_name k) ≡ some k
unfolding mode_key_of
key_of-key_name_mode ModeKey.seed_mode = refl
key_of-key_name_mode ModeKey.seed_value = refl
key_of-key_name_mode ModeKey.budget_exhausted_action = refl
key_of-key_name_mode ModeKey.accounting_scope = refl
key_of-key_name_mode ModeKey.allow_stub_client = refl
key_of-key_name_mode ModeKey.require_node_auth = refl
key_of-key_name_mode ModeKey.config_log_format = refl

pub listed_mode : (k : ModeKey) → Any (λ j. j ≡ k) mode_keys
listed_mode ModeKey.seed_mode = inl refl
listed_mode ModeKey.seed_value = inr (inl refl)
listed_mode ModeKey.budget_exhausted_action = inr (inr (inl refl))
listed_mode ModeKey.accounting_scope = inr (inr (inr (inl refl)))
listed_mode ModeKey.allow_stub_client = inr (inr (inr (inr (inl refl))))
listed_mode ModeKey.require_node_auth = inr (inr (inr (inr (inr (inl refl)))))
listed_mode ModeKey.config_log_format = inr (inr (inr (inr (inr (inr (inl refl))))))

pub get-set_self_mode :
    (k : ModeKey) (v : ModeValue k) (d : ModeDefaults) → get_mode k (set_mode k v d) ≡ v
unfolding get_mode set_mode
get-set_self_mode ModeKey.seed_mode v d = refl
get-set_self_mode ModeKey.seed_value v d = refl
get-set_self_mode ModeKey.budget_exhausted_action v d = refl
get-set_self_mode ModeKey.accounting_scope v d = refl
get-set_self_mode ModeKey.allow_stub_client v d = refl
get-set_self_mode ModeKey.require_node_auth v d = refl
get-set_self_mode ModeKey.config_log_format v d = refl

pub get-set_other_mode :
    (j k : ModeKey) (v : ModeValue j) (d : ModeDefaults)
    → ¬ (j ≡ k)
    → get_mode k (set_mode j v d) ≡ get_mode k d
unfolding get_mode set_mode
get-set_other_mode ModeKey.seed_mode k v d h =
    elim k
        as (λ k.
          ¬ (ModeKey.seed_mode ≡ k) → get_mode k (set_mode ModeKey.seed_mode v d) ≡ get_mode k d) [
            | ModeKey.seed_mode ↦ λ h. absurd (h refl)
            | ModeKey.seed_value ↦ λ h. refl
            | ModeKey.budget_exhausted_action ↦ λ h. refl
            | ModeKey.accounting_scope ↦ λ h. refl
            | ModeKey.allow_stub_client ↦ λ h. refl
            | ModeKey.require_node_auth ↦ λ h. refl
            | ModeKey.config_log_format ↦ λ h. refl
          ]
      h
get-set_other_mode ModeKey.seed_value k v d h =
    elim k
        as (λ k.
          ¬ (ModeKey.seed_value ≡ k)
          → get_mode k (set_mode ModeKey.seed_value v d) ≡ get_mode k d) [
            | ModeKey.seed_mode ↦ λ h. refl
            | ModeKey.seed_value ↦ λ h. absurd (h refl)
            | ModeKey.budget_exhausted_action ↦ λ h. refl
            | ModeKey.accounting_scope ↦ λ h. refl
            | ModeKey.allow_stub_client ↦ λ h. refl
            | ModeKey.require_node_auth ↦ λ h. refl
            | ModeKey.config_log_format ↦ λ h. refl
          ]
      h
get-set_other_mode ModeKey.budget_exhausted_action k v d h =
    elim k
        as (λ k.
          ¬ (ModeKey.budget_exhausted_action ≡ k)
          → get_mode k (set_mode ModeKey.budget_exhausted_action v d) ≡ get_mode k d) [
            | ModeKey.seed_mode ↦ λ h. refl
            | ModeKey.seed_value ↦ λ h. refl
            | ModeKey.budget_exhausted_action ↦ λ h. absurd (h refl)
            | ModeKey.accounting_scope ↦ λ h. refl
            | ModeKey.allow_stub_client ↦ λ h. refl
            | ModeKey.require_node_auth ↦ λ h. refl
            | ModeKey.config_log_format ↦ λ h. refl
          ]
      h
get-set_other_mode ModeKey.accounting_scope k v d h =
    elim k
        as (λ k.
          ¬ (ModeKey.accounting_scope ≡ k)
          → get_mode k (set_mode ModeKey.accounting_scope v d) ≡ get_mode k d) [
            | ModeKey.seed_mode ↦ λ h. refl
            | ModeKey.seed_value ↦ λ h. refl
            | ModeKey.budget_exhausted_action ↦ λ h. refl
            | ModeKey.accounting_scope ↦ λ h. absurd (h refl)
            | ModeKey.allow_stub_client ↦ λ h. refl
            | ModeKey.require_node_auth ↦ λ h. refl
            | ModeKey.config_log_format ↦ λ h. refl
          ]
      h
get-set_other_mode ModeKey.allow_stub_client k v d h =
    elim k
        as (λ k.
          ¬ (ModeKey.allow_stub_client ≡ k)
          → get_mode k (set_mode ModeKey.allow_stub_client v d) ≡ get_mode k d) [
            | ModeKey.seed_mode ↦ λ h. refl
            | ModeKey.seed_value ↦ λ h. refl
            | ModeKey.budget_exhausted_action ↦ λ h. refl
            | ModeKey.accounting_scope ↦ λ h. refl
            | ModeKey.allow_stub_client ↦ λ h. absurd (h refl)
            | ModeKey.require_node_auth ↦ λ h. refl
            | ModeKey.config_log_format ↦ λ h. refl
          ]
      h
get-set_other_mode ModeKey.require_node_auth k v d h =
    elim k
        as (λ k.
          ¬ (ModeKey.require_node_auth ≡ k)
          → get_mode k (set_mode ModeKey.require_node_auth v d) ≡ get_mode k d) [
            | ModeKey.seed_mode ↦ λ h. refl
            | ModeKey.seed_value ↦ λ h. refl
            | ModeKey.budget_exhausted_action ↦ λ h. refl
            | ModeKey.accounting_scope ↦ λ h. refl
            | ModeKey.allow_stub_client ↦ λ h. refl
            | ModeKey.require_node_auth ↦ λ h. absurd (h refl)
            | ModeKey.config_log_format ↦ λ h. refl
          ]
      h
get-set_other_mode ModeKey.config_log_format k v d h =
    elim k
        as (λ k.
          ¬ (ModeKey.config_log_format ≡ k)
          → get_mode k (set_mode ModeKey.config_log_format v d) ≡ get_mode k d) [
            | ModeKey.seed_mode ↦ λ h. refl
            | ModeKey.seed_value ↦ λ h. refl
            | ModeKey.budget_exhausted_action ↦ λ h. refl
            | ModeKey.accounting_scope ↦ λ h. refl
            | ModeKey.allow_stub_client ↦ λ h. refl
            | ModeKey.require_node_auth ↦ λ h. refl
            | ModeKey.config_log_format ↦ λ h. absurd (h refl)
          ]
      h

module _ (toml : Toml) where
  unfoldable pub read_mode : (k : ModeKey) → toml.Value → Result Text (ModeValue k)
  read_mode ModeKey.seed_mode value = toml.to_seed_mode value
  read_mode ModeKey.seed_value value = do x ← toml.to_u64 value; ok (some x)
  read_mode ModeKey.budget_exhausted_action value = toml.to_budget_exhausted_action value
  read_mode ModeKey.accounting_scope value = toml.to_accounting_scope value
  read_mode ModeKey.allow_stub_client value = toml.to_bool value
  read_mode ModeKey.require_node_auth value = toml.to_bool value
  read_mode ModeKey.config_log_format value = toml.to_log_format value

  abbrev pub mode_axis : Axis toml
  mode_axis = record {
    Base = Mode;
    Defaults = ModeDefaults;
    Key = ModeKey;
    KeyType = ModeValue;
    bases = modes;
    label = mode_label;
    defaults = mode_defaults;
    keys = mode_keys;
    key_name = mode_key_name;
    key_of = mode_key_of;
    read = read_mode;
    get = get_mode;
    set = set_mode;
    Key-discrete = ModeKey-discrete;
    key_of-key_name = key_of-key_name_mode;
    listed = listed_mode;
    get-set_self = get-set_self_mode;
    get-set_other = get-set_other_mode;
  }
