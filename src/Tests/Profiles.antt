-- ===== src/Tests/Profiles.antt =====
-- A ward's profile that extends a hospital's, which extends a builtin.
use conflux_fl.Base.{
  ◌≡◌, refl, none, some, List, [], ◌∷◌, Text, text, Text-discrete, ite, Result, ok, err, map,
}
use conflux_fl.Config
use conflux_fl.Config.Axis.{Toml}
use conflux_fl.Config.Axis.Topologies
use conflux_fl.Config.Defaults
use conflux_fl.Config.Axis.Topologies.{topology_axis}
use conflux_fl.Config.Axis.Modes.{mode_keys, mode_key_name}
use conflux_fl.Config.Profile.{ProfileError, Dir, Profile, load_profile}
use conflux_fl.Config.Axis.{TopologyKey}
use conflux_fl.Config.Profile.Credited.{IsCredited, load_profile-resolve_with_profiles}
use conflux_fl.Config.Profile.Named.{topology_profile}
use conflux_fl.Config.Resolve.{Tiers}
use conflux_fl.Config.Resolve.Whole.{mode_builtin}
use conflux_fl.Tests.Settings.{no_opinion}
use conflux_fl.Config.Profile.Loaded.{IsLoaded, load_profile-returns, load_profile-IsLoaded}

abbrev wrong : Text
wrong = text "unexpected value"

-- The two files, by their text; every value is a string.
abbrev tables : Text → Result Text (List (Text × Text))
tables source =
    ite (Text-discrete source (text "ward"))
      (ok ((text "inherits", text "hospital") ∷ (text "round_timeout_secs", text "900") ∷ []))
      (ok ((text "inherits", text "cross_silo") ∷ (text "round_timeout_secs", text "1800") ∷ []))

abbrev strings : Toml
strings = record {
  Value = Text;
  parse = tables;
  as_str = some;
  to_connection_mode = λ v. err wrong;
  to_auth = λ v. err wrong;
  to_u64 = λ v. ite (Text-discrete v (text "900")) (ok 900) (ok 1800);
  to_f32 = λ v. err wrong;
  to_bool = λ v. err wrong;
  to_seed_mode = λ v. err wrong;
  to_budget_exhausted_action = λ v. err wrong;
  to_accounting_scope = λ v. err wrong;
  to_log_format = λ v. err wrong;
}

abbrev profiles : Dir
profiles = (text "ward", ok (text "ward")) ∷ (text "hospital", ok (text "hospital")) ∷ []

abbrev other_keys : List Text
other_keys = map mode_key_name mode_keys

load_profile-returns_example :
    (r : Result ProfileError (Profile strings (topology_axis strings) other_keys)) × (load_profile
        strings
        (topology_axis strings)
        other_keys
        profiles
        (text "ward")
      ≡ some r)
load_profile-returns_example =
    load_profile-returns strings (topology_axis strings) other_keys profiles (text "ward")

abbrev ward : Profile strings (topology_axis strings) other_keys
ward = record {
  name = text "ward";
  base = Config.cross_silo;
  defaults = record {
    connection_mode = Config.push;
    auth = Config.mtls;
    round_timeout_secs = 900;
    min_reputation_score = 0;
    client_registry_ttl = 3600;
  };
  chain = text "ward" ∷ text "hospital" ∷ text "cross_silo" ∷ [];
  origins =
      (text "client_registry_ttl", text "cross_silo")
      ∷ (text "min_reputation_score", text "cross_silo")
      ∷ (text "round_timeout_secs", text "ward")
      ∷ (text "auth", text "cross_silo")
      ∷ (text "connection_mode", text "cross_silo")
      ∷ [];
}

load_profile-IsLoaded_example :
    IsLoaded strings (topology_axis strings) other_keys profiles (text "ward") ward
unfolding load_profile Defaults.topology_label Topologies.topology_key_of Topologies.read_topology
    Topologies.set_topology Defaults.topology_defaults
load_profile-IsLoaded_example =
    load_profile-IsLoaded strings (topology_axis strings) other_keys profiles (text "ward") ward
      refl

abbrev ward_tiers : Tiers
ward_tiers = record {
  topology = topology_profile strings ward;
  mode = mode_builtin Config.research;
  file = none;
  env = no_opinion;
  cli = no_opinion;
}

load_profile-resolve_with_profiles_example :
    IsCredited strings profiles (text "ward") ward ward_tiers TopologyKey.round_timeout_secs
unfolding load_profile Defaults.topology_label Topologies.topology_key_of Topologies.read_topology
    Topologies.set_topology Defaults.topology_defaults
load_profile-resolve_with_profiles_example =
    load_profile-resolve_with_profiles strings profiles (text "ward") ward refl ward_tiers refl
      TopologyKey.round_timeout_secs (refl, refl, refl)
