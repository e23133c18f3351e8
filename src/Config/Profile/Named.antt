-- ===== src/Config/Profile/Named.antt =====
-- crates/conflux-config/src/profile.rs and src/env.rs: the profiles of the two axes, by name.
use mathlib.Core.Option
use conflux_fl.Base.{Option, none, some, Text, Result, ok, err, map}
use conflux_fl.Config
use conflux_fl.Config.{Topology, Mode, research}
use conflux_fl.Config.Axis.{Toml}
use conflux_fl.Config.Axis.Topologies.{topology_axis, topology_keys, topology_key_name}
use conflux_fl.Config.Axis.Modes.{mode_axis, mode_keys, mode_key_name}
use conflux_fl.Config.Defaults.{topologies, modes}
use conflux_fl.Config.Profile.{ProfileError, Dir, Profile, find_base, load_profile}
use conflux_fl.Config.Resolve.{TopologyProfile, ModeProfile}
use conflux_fl.Config.Resolve.Whole.{topology_builtin, mode_builtin}

abbrev pub map_ok : {E A B : Type 0} → (A → B) → Result E A → Result E B
map_ok f (ok a) = ok (f a)
map_ok f (err e) = err e

module _ (toml : Toml) where
  abbrev pub TopologyLoaded : Type 0
  TopologyLoaded = Profile toml (topology_axis toml) (map mode_key_name mode_keys)

  abbrev pub ModeLoaded : Type 0
  ModeLoaded = Profile toml (mode_axis toml) (map topology_key_name topology_keys)

  abbrev pub topology_profile : TopologyLoaded → TopologyProfile
  topology_profile p = record {
    name = p.name;
    base = p.base;
    defaults = p.defaults;
    chain = p.chain;
    origins = p.origins;
  }

  abbrev pub mode_profile : ModeLoaded → ModeProfile
  mode_profile p = record {
    name = p.name;
    base = p.base;
    defaults = p.defaults;
    chain = p.chain;
    origins = p.origins;
  }

  unfoldable pub load_topology_profile : Dir → Text → Option (Result ProfileError TopologyProfile)
  unfolding load_profile
  load_topology_profile dir name =
      Option.map (map_ok topology_profile)
        (load_profile toml (topology_axis toml) (map mode_key_name mode_keys) dir name)

  unfoldable pub load_mode_profile : Dir → Text → Option (Result ProfileError ModeProfile)
  unfolding load_profile
  load_mode_profile dir name =
      Option.map (map_ok mode_profile)
        (load_profile toml (mode_axis toml) (map topology_key_name topology_keys) dir name)

  unfoldable pub topology_profile_named :
      Dir → Option Text → Option (Result ProfileError TopologyProfile)
  unfolding load_topology_profile find_base topology_builtin
  topology_profile_named dir none = some (ok (topology_builtin Config.cross_device))
  topology_profile_named dir (some name) =
      elim (find_base toml (topology_axis toml) (map mode_key_name mode_keys) topologies name) [
        | some t ↦ some (ok (topology_builtin t))
        | none ↦ load_topology_profile dir name
      ]

  unfoldable pub mode_profile_named : Dir → Option Text → Option (Result ProfileError ModeProfile)
  unfolding load_mode_profile find_base mode_builtin
  mode_profile_named dir none = some (ok (mode_builtin research))
  mode_profile_named dir (some name) =
      elim (find_base toml (mode_axis toml) (map topology_key_name topology_keys) modes name) [
        | some m ↦ some (ok (mode_builtin m))
        | none ↦ load_mode_profile dir name
      ]
