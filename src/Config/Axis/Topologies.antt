-- ===== src/Config/Axis/Topologies.antt =====
-- crates/conflux-config/src/profile.rs: `TOPOLOGY_KEYS` and `apply_topology_key`.
use conflux_fl.Base.{
  ℕ, ◌≡◌, inl, inr, refl, Option, none, some, List, [], ◌∷◌, Text, text, Text-discrete, Result, ite,
  Any,
}
use conflux_fl.Float.{F32}
use conflux_fl.Config.{AuthMode, Topology, ConnectionMode}
use conflux_fl.Config.Axis.{Toml, Axis, TopologyKey}
use conflux_fl.Config.Defaults.{TopologyDefaults, topologies, topology_label, topology_defaults}

abbrev pub topology_keys : List TopologyKey
topology_keys =
    TopologyKey.connection_mode ∷ TopologyKey.auth ∷ TopologyKey.round_timeout_secs
    ∷ TopologyKey.min_reputation_score ∷ TopologyKey.client_registry_ttl ∷ []

abbrev pub topology_key_name : TopologyKey → Text
topology_key_name TopologyKey.connection_mode = text "connection_mode"
topology_key_name TopologyKey.auth = text "auth"
topology_key_name TopologyKey.round_timeout_secs = text "round_timeout_secs"
topology_key_name TopologyKey.min_reputation_score = text "min_reputation_score"
topology_key_name TopologyKey.client_registry_ttl = text "client_registry_ttl"

-- The patterns of `match key`.
unfoldable pub topology_key_of : Text → Option TopologyKey
unfolding Text-discrete
topology_key_of key =
    ite (Text-discrete key (text "connection_mode")) (some TopologyKey.connection_mode) (
      ite (Text-discrete key (text "auth")) (some TopologyKey.auth) (
        ite (Text-discrete key (text "round_timeout_secs")) (some TopologyKey.round_timeout_secs) (
          ite (Text-discrete key (text "min_reputation_score"))
            (some TopologyKey.min_reputation_score)
            (ite (Text-discrete key (text "client_registry_ttl"))
              (some TopologyKey.client_registry_ttl) (none)))))

abbrev pub TopologyValue : TopologyKey → Type 0
TopologyValue TopologyKey.connection_mode = ConnectionMode
TopologyValue TopologyKey.auth = AuthMode
TopologyValue TopologyKey.round_timeout_secs = ℕ
TopologyValue TopologyKey.min_reputation_score = F32
TopologyValue TopologyKey.client_registry_ttl = ℕ

unfoldable pub get_topology : (k : TopologyKey) → TopologyDefaults → TopologyValue k
get_topology TopologyKey.connection_mode d = d.connection_mode
get_topology TopologyKey.auth d = d.auth
get_topology TopologyKey.round_timeout_secs d = d.round_timeout_secs
get_topology TopologyKey.min_reputation_score d = d.min_reputation_score
get_topology TopologyKey.client_registry_ttl d = d.client_registry_ttl

unfoldable pub set_topology :
    (k : TopologyKey) → TopologyValue k → TopologyDefaults → TopologyDefaults
set_topology TopologyKey.connection_mode v d = record d { connection_mode = v }
set_topology TopologyKey.auth v d = record d { auth = v }
set_topology TopologyKey.round_timeout_secs v d = record d { round_timeout_secs = v }
set_topology TopologyKey.min_reputation_score v d = record d { min_reputation_score = v }
set_topology TopologyKey.client_registry_ttl v d = record d { client_registry_ttl = v }

pub TopologyKey-discrete : Discrete TopologyKey
TopologyKey-discrete = hlevel

pub key_of-key_name_topology : (k : TopologyKey) → topology_key_of (topology_key_name k) ≡ some k
unfolding topology_key_of
key_of-key_name_topology TopologyKey.connection_mode = refl
key_of-key_name_topology TopologyKey.auth = refl
key_of-key_name_topology TopologyKey.round_timeout_secs = refl
key_of-key_name_topology TopologyKey.min_reputation_score = refl
key_of-key_name_topology TopologyKey.client_registry_ttl = refl

pub listed_topology : (k : TopologyKey) → Any (λ j. j ≡ k) topology_keys
listed_topology TopologyKey.connection_mode = inl refl
listed_topology TopologyKey.auth = inr (inl refl)
listed_topology TopologyKey.round_timeout_secs = inr (inr (inl refl))
listed_topology TopologyKey.min_reputation_score = inr (inr (inr (inl refl)))
listed_topology TopologyKey.client_registry_ttl = inr (inr (inr (inr (inl refl))))

pub get-set_self_topology :
    (k : TopologyKey) (v : TopologyValue k) (d : TopologyDefaults)
    → get_topology k (set_topology k v d) ≡ v
unfolding get_topology set_topology
get-set_self_topology TopologyKey.connection_mode v d = refl
get-set_self_topology TopologyKey.auth v d = refl
get-set_self_topology TopologyKey.round_timeout_secs v d = refl
get-set_self_topology TopologyKey.min_reputation_score v d = refl
get-set_self_topology TopologyKey.client_registry_ttl v d = refl

pub get-set_other_topology :
    (j k : TopologyKey) (v : TopologyValue j) (d : TopologyDefaults)
    → ¬ (j ≡ k)
    → get_topology k (set_topology j v d) ≡ get_topology k d
unfolding get_topology set_topology
get-set_other_topology TopologyKey.connection_mode k v d h =
    elim k
        as (λ k.
          ¬ (TopologyKey.connection_mode ≡ k)
          → get_topology k (set_topology TopologyKey.connection_mode v d) ≡ get_topology k d) [
            | TopologyKey.connection_mode ↦ λ h. absurd (h refl)
            | TopologyKey.auth ↦ λ h. refl
            | TopologyKey.round_timeout_secs ↦ λ h. refl
            | TopologyKey.min_reputation_score ↦ λ h. refl
            | TopologyKey.client_registry_ttl ↦ λ h. refl
          ]
      h
get-set_other_topology TopologyKey.auth k v d h =
    elim k
        as (λ k.
          ¬ (TopologyKey.auth ≡ k)
          → get_topology k (set_topology TopologyKey.auth v d) ≡ get_topology k d) [
            | TopologyKey.connection_mode ↦ λ h. refl
            | TopologyKey.auth ↦ λ h. absurd (h refl)
            | TopologyKey.round_timeout_secs ↦ λ h. refl
            | TopologyKey.min_reputation_score ↦ λ h. refl
            | TopologyKey.client_registry_ttl ↦ λ h. refl
          ]
      h
get-set_other_topology TopologyKey.round_timeout_secs k v d h =
    elim k
        as (λ k.
          ¬ (TopologyKey.round_timeout_secs ≡ k)
          → get_topology k (set_topology TopologyKey.round_timeout_secs v d) ≡ get_topology k d) [
            | TopologyKey.connection_mode ↦ λ h. refl
            | TopologyKey.auth ↦ λ h. refl
            | TopologyKey.round_timeout_secs ↦ λ h. absurd (h refl)
            | TopologyKey.min_reputation_score ↦ λ h. refl
            | TopologyKey.client_registry_ttl ↦ λ h. refl
          ]
      h
get-set_other_topology TopologyKey.min_reputation_score k v d h =
    elim k
        as (λ k.
          ¬ (TopologyKey.min_reputation_score ≡ k)
          → get_topology k (set_topology TopologyKey.min_reputation_score v d) ≡ get_topology k d) [
            | TopologyKey.connection_mode ↦ λ h. refl
            | TopologyKey.auth ↦ λ h. refl
            | TopologyKey.round_timeout_secs ↦ λ h. refl
            | TopologyKey.min_reputation_score ↦ λ h. absurd (h refl)
            | TopologyKey.client_registry_ttl ↦ λ h. refl
          ]
      h
get-set_other_topology TopologyKey.client_registry_ttl k v d h =
    elim k
        as (λ k.
          ¬ (TopologyKey.client_registry_ttl ≡ k)
          → get_topology k (set_topology TopologyKey.client_registry_ttl v d) ≡ get_topology k d) [
            | TopologyKey.connection_mode ↦ λ h. refl
            | TopologyKey.auth ↦ λ h. refl
            | TopologyKey.round_timeout_secs ↦ λ h. refl
            | TopologyKey.min_reputation_score ↦ λ h. refl
            | TopologyKey.client_registry_ttl ↦ λ h. absurd (h refl)
          ]
      h

module _ (toml : Toml) where
  unfoldable pub read_topology : (k : TopologyKey) → toml.Value → Result Text (TopologyValue k)
  read_topology TopologyKey.connection_mode value = toml.to_connection_mode value
  read_topology TopologyKey.auth value = toml.to_auth value
  read_topology TopologyKey.round_timeout_secs value = toml.to_u64 value
  read_topology TopologyKey.min_reputation_score value = toml.to_f32 value
  read_topology TopologyKey.client_registry_ttl value = toml.to_u64 value

  abbrev pub topology_axis : Axis toml
  topology_axis = record {
    Base = Topology;
    Defaults = TopologyDefaults;
    Key = TopologyKey;
    KeyType = TopologyValue;
    bases = topologies;
    label = topology_label;
    defaults = topology_defaults;
    keys = topology_keys;
    key_name = topology_key_name;
    key_of = topology_key_of;
    read = read_topology;
    get = get_topology;
    set = set_topology;
    Key-discrete = TopologyKey-discrete;
    key_of-key_name = key_of-key_name_topology;
    listed = listed_topology;
    get-set_self = get-set_self_topology;
    get-set_other = get-set_other_topology;
  }
