-- ===== src/Config/Profile/Credited.antt =====
-- crates/conflux-config/src/profile.rs and src/lib.rs: what a loaded topology profile makes of the
-- resolved configuration, and how the source of each value is named.
use conflux_fl.Base.{
  ◌≡◌, refl, ap, subst, ◌∙◌, Option, none, some, List, [], ◌∷◌, ◌++◌, map, Text, Text-discrete, ite,
  ok,
}
use conflux_fl.Base.Dict.{get}
use conflux_fl.Config.Axis.{Toml, TopologyKey}
use conflux_fl.Config.Axis.Modes.{mode_keys, mode_key_name}
use conflux_fl.Config.Axis.Topologies.{
  topology_axis, TopologyValue, topology_key_name, get_topology,
}
use conflux_fl.Config.Defaults.{TopologyDefaults, ModeDefaults, topology_defaults, topology_label}
use conflux_fl.Config.Profile.{Dir, LoadedFile, load_profile}
use conflux_fl.Config.Profile.Loaded.{IsLoaded, load_profile-IsLoaded}
use conflux_fl.Config.Profile.Named.{TopologyLoaded, topology_profile}
use conflux_fl.Config.Profile.Nearest.{IsDecided, Decides, stated}
use conflux_fl.Config.Resolve.{Tiers, ConfigSource}
use conflux_fl.Config.Resolve.Layer.{and_then, arrow, file_overrides, source_label, topo_src}
use conflux_fl.Config.Resolve.Parameter.{Parameter, Value, key, variable, outcome}
use conflux_fl.Config.Resolve.Parameter
use conflux_fl.Config.Resolve.Parameter.Owned.{topology_value, mode_value, fallback}
use conflux_fl.Config.Resolve.Precedence.{resolve_with_profiles-first_opinion, first_opinion}
use conflux_fl.Config.Resolve.Whole.{resolve_with_profiles}

-- The keys of a topology profile as parameters.
abbrev pub parameter_of : TopologyKey → Parameter
parameter_of TopologyKey.connection_mode = Parameter.connection_mode
parameter_of TopologyKey.auth = Parameter.auth
parameter_of TopologyKey.round_timeout_secs = Parameter.round_timeout_secs
parameter_of TopologyKey.min_reputation_score = Parameter.min_reputation_score
parameter_of TopologyKey.client_registry_ttl = Parameter.client_registry_ttl

abbrev pub value_of : (k : TopologyKey) → TopologyValue k → Value (parameter_of k)
value_of TopologyKey.connection_mode v = v
value_of TopologyKey.auth v = v
value_of TopologyKey.round_timeout_secs v = v
value_of TopologyKey.min_reputation_score v = v
value_of TopologyKey.client_registry_ttl v = v

topology_owns :
    (k : TopologyKey) (d : TopologyDefaults)
    → topology_value (parameter_of k) d ≡ some (value_of k (get_topology k d))
unfolding get_topology
topology_owns TopologyKey.connection_mode d = refl
topology_owns TopologyKey.auth d = refl
topology_owns TopologyKey.round_timeout_secs d = refl
topology_owns TopologyKey.min_reputation_score d = refl
topology_owns TopologyKey.client_registry_ttl d = refl

mode_owns_none : (k : TopologyKey) (d : ModeDefaults) → mode_value (parameter_of k) d ≡ none
mode_owns_none TopologyKey.connection_mode d = refl
mode_owns_none TopologyKey.auth d = refl
mode_owns_none TopologyKey.round_timeout_secs d = refl
mode_owns_none TopologyKey.min_reputation_score d = refl
mode_owns_none TopologyKey.client_registry_ttl d = refl

key-parameter_of : (k : TopologyKey) → key (parameter_of k) ≡ topology_key_name k
key-parameter_of TopologyKey.connection_mode = refl
key-parameter_of TopologyKey.auth = refl
key-parameter_of TopologyKey.round_timeout_secs = refl
key-parameter_of TopologyKey.min_reputation_score = refl
key-parameter_of TopologyKey.client_registry_ttl = refl

-- No explicit override has an opinion.
abbrev pub IsUnstated : Parameter → Tiers → Type 0
IsUnstated p t =
    (Parameter.stated p t.cli ≡ none)
    × (Parameter.stated p t.env ≡ none)
    × (and_then (file_overrides t) (Parameter.stated p) ≡ none)

-- A profile's own value goes by the profile's name, an inherited one names its file too.
abbrev pub credit : Text → Text → Text
credit name origin = ite (Text-discrete origin name) name (name ++ arrow ++ origin)

first_opinion-topology :
    {T : Type 0} (c e f m t b : Option T) (v : T) (cs es fs ms ts bs : ConfigSource)
    → c ≡ none
    → e ≡ none
    → f ≡ none
    → m ≡ none
    → t ≡ some v
    → first_opinion ((c, cs) ∷ (e, es) ∷ (f, fs) ∷ (m, ms) ∷ (t, ts) ∷ (b, bs) ∷ [])
      ≡ some (record { value = v; source = ts })
first_opinion-topology c e f m t b v cs es fs ms ts bs hc he hf hm ht = rw (hc, he, hf, hm, ht) refl

source_label-credit :
    (name k origin : Text) (origins : List (Text × Text))
    → get Text-discrete k origins ≡ some origin
    → source_label name origins k ≡ credit name origin
unfolding source_label
source_label-credit name k origin origins e = rw (e, source_label) refl

module _ (toml : Toml) where
  decided_origin :
      (k : TopologyKey) (value : TopologyValue k) (label : Text)
      → (files : List (LoadedFile toml)) (v : TopologyValue k) (o : Option Text)
      → IsDecided toml
          (topology_axis toml)
          (map mode_key_name mode_keys)
          k
          value
          (some label)
          files
          v
          o
      → (origin : Text) × (o ≡ some origin)
  decided_origin k value label [] v o d = (label, d.1)
  decided_origin k value label ((file, keys) ∷ farther) v o d =
      by_stated (stated toml (topology_axis toml) (map mode_key_name mode_keys) k keys) d
        (decided_origin k value label farther v o)
    where
      by_stated :
          (s : Option toml.Value)
          → Decides toml (topology_axis toml) (map mode_key_name mode_keys) k file s v o (
              IsDecided toml
                (topology_axis toml)
                (map mode_key_name mode_keys)
                k
                value
                (some label)
                farther
                v
                o)
          → (IsDecided toml
                (topology_axis toml)
                (map mode_key_name mode_keys)
                k
                value
                (some label)
                farther
                v
                o
              → (origin : Text) × (o ≡ some origin))
          → (origin : Text) × (o ≡ some origin)
      by_stated (some raw) d rest = (file, d.1)
      by_stated none d rest = rest d

  -- A key has the value that the nearest file of the profile's chain states, and is credited to the
  -- profile through that file.
  abbrev pub IsCredited : Dir → Text → TopologyLoaded toml → Tiers → TopologyKey → Type 0
  IsCredited dir name p t k =
      (loaded : IsLoaded toml (topology_axis toml) (map mode_key_name mode_keys) dir name p)
      × (v : TopologyValue k) × (origin : Text) × IsDecided toml (topology_axis toml)
          (map mode_key_name mode_keys) k (get_topology k (topology_defaults p.base))
          (some (topology_label p.base)) loaded.files v (some origin)
      × (outcome (parameter_of k) (resolve_with_profiles t)
          ≡ some (record {
            value = value_of k v;
            source = ConfigSource.topology_profile (credit name origin);
          }))

  -- From the files to the resolved configuration: with a profile that was loaded, every key of the
  -- topology on which no explicit override has an opinion is resolved to the value that the nearest
  -- file of the chain states, else to the builtin's, and its source names the profile, and the file
  -- that the value was inherited from where this is another.
  pub load_profile-resolve_with_profiles :
      (dir : Dir) (name : Text) (p : TopologyLoaded toml)
      → load_profile toml (topology_axis toml) (map mode_key_name mode_keys) dir name ≡ some (ok p)
      → (t : Tiers) → t.topology ≡ topology_profile toml p
      → (k : TopologyKey) → IsUnstated (parameter_of k) t
      → IsCredited dir name p t k
  load_profile-resolve_with_profiles dir name p e t same k silent =
      let loaded =
        load_profile-IsLoaded toml (topology_axis toml) (map mode_key_name mode_keys) dir name p
          e in
      let (origin, found) = decided_origin k _ _ loaded.files _ _ (loaded.decided k) in
      let (c, v, f) = silent in
      (
        loaded,
        get_topology k p.defaults,
        origin,
        subst
            (λ o.
              IsDecided toml (topology_axis toml) (map mode_key_name mode_keys) k
                (get_topology k (topology_defaults p.base)) (some (topology_label p.base))
                loaded.files (get_topology k p.defaults) o)
            found (loaded.decided k),
        resolve_with_profiles-first_opinion (parameter_of k) t
            ∙ first_opinion-topology _ _ _ _ _ (fallback (parameter_of k))
                (value_of k (get_topology k p.defaults)) _ _ _ _ (topo_src t (key (parameter_of k)))
                _ c v f (mode_owns_none k t.mode.defaults)
                (ap (λ q. topology_value (parameter_of k) q.defaults) same
                  ∙ topology_owns k p.defaults)
            ∙ ap
                (λ l. some (record {
                  value = value_of k (get_topology k p.defaults);
                  source = ConfigSource.topology_profile l;
                }))
                (ap (λ q. source_label q.name q.origins (key (parameter_of k))) same
                  ∙ ap (source_label p.name p.origins) (key-parameter_of k)
                  ∙ source_label-credit p.name (topology_key_name k) origin p.origins found
                  ∙ ap (λ n. credit n origin) loaded.named),
      )
