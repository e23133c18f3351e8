-- ===== src/Config/Axis.antt =====
-- crates/conflux-config/src/profile.rs: an axis of profiles, the builtin ones that it starts from and the
-- keys that a profile may set. The topologies and the modes are its two instances.
pub mod Topologies
pub mod Modes
use conflux_fl.Base.{
  ℕ, ◌≡◌, ◌⊎◌, inl, inr, refl, ap, Bool, true, Option, none, some, List, [], ◌∷◌, Text, text,
  Text-discrete, Result, map_err, ok, err, ite, arith, Any, ◌>>=◌, if_pos, if_neg,
}
use conflux_fl.Float.{F32}
use conflux_fl.Config.{
  AccountingScope, BudgetExhaustedAction, AuthMode, ConnectionMode, SeedMode, LogFormat,
}

-- The `toml` crate: values, the parser, and `try_into` at each type.
pub record Toml : Type 1 where
  pub Value : Type 0
  pub parse : Text → Result Text (List (Text × Value))
  pub as_str : Value → Option Text
  pub to_connection_mode : Value → Result Text ConnectionMode
  pub to_auth : Value → Result Text AuthMode
  pub to_u64 : Value → Result Text ℕ
  pub to_f32 : Value → Result Text F32
  pub to_bool : Value → Result Text Bool
  pub to_seed_mode : Value → Result Text SeedMode
  pub to_budget_exhausted_action : Value → Result Text BudgetExhaustedAction
  pub to_accounting_scope : Value → Result Text AccountingScope
  pub to_log_format : Value → Result Text LogFormat

pub data TopologyKey : Type 0 where
  connection_mode auth round_timeout_secs min_reputation_score client_registry_ttl : TopologyKey

pub data ModeKey : Type 0 where
  seed_mode seed_value budget_exhausted_action accounting_scope : ModeKey
  allow_stub_client require_node_auth config_log_format : ModeKey

module _ (toml : Toml) where
  open toml use {Value}

  -- What the two loaders of profiles have in common: the keys with the types of their values, how the
  -- arms of `match key` read and write them, and that a write is seen by its own key alone.
  pub record Axis : Type 1 where
    pub Base : Type 0
    pub Defaults : Type 0
    pub Key : Type 0
    pub KeyType : Key → Type 0
    pub bases : List Base
    pub label : Base → Text
    pub defaults : Base → Defaults
    pub keys : List Key
    pub key_name : Key → Text
    pub key_of : Text → Option Key
    pub read : (k : Key) → Value → Result Text (KeyType k)
    pub get : (k : Key) → Defaults → KeyType k
    pub set : (k : Key) → KeyType k → Defaults → Defaults
    pub Key-discrete : Discrete Key
    pub key_of-key_name : (k : Key) → key_of (key_name k) ≡ some k
    pub listed : (k : Key) → Any (λ j. j ≡ k) keys
    pub get-set_self : (k : Key) (v : KeyType k) (d : Defaults) → get k (set k v d) ≡ v
    pub get-set_other :
        (j k : Key) (v : KeyType j) (d : Defaults) → ¬ (j ≡ k) → get k (set j v d) ≡ get k d
