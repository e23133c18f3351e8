-- ===== src/Config/Resolve/Layer.antt =====
-- crates/conflux-config/src/lib.rs: the precedence of the six tiers for one parameter, and the source
-- that each tier is credited as.
use conflux_fl.Base.{◌++◌, Option, none, some, List, ◌∷◌, [], Text, text, Text-discrete, ite}
use conflux_fl.Base.Dict.{get}
use conflux_fl.Config.Resolve.{
  ConfigSource, experiment_file, builtin_fallback, env_var, mode_profile, topology_profile,
  Resolved, Overrides, Tiers,
}

-- `and_then`
abbrev pub and_then : {A B : Type 0} → Option A → (A → Option B) → Option B
and_then none f = none
and_then (some a) f = f a

unfoldable pub layer :
    {T : Type 0}
    → T
    → Option T
    → Option T
    → Option T
    → Option T
    → Option T
    → ConfigSource
    → ConfigSource
    → ConfigSource
    → ConfigSource
    → Resolved T
layer builtin topology mode file env (some value) ts ms fs es = record {
  value = value;
  source = ConfigSource.cli;
}
layer builtin topology mode file (some value) none ts ms fs es = record {
  value = value;
  source = es;
}
layer builtin topology mode (some value) none none ts ms fs es = record {
  value = value;
  source = fs;
}
layer builtin topology (some value) none none none ts ms fs es = record {
  value = value;
  source = ms;
}
layer builtin (some value) none none none none ts ms fs es = record { value = value; source = ts }
layer builtin none none none none none ts ms fs es = record {
  value = builtin;
  source = builtin_fallback;
}

-- The separator is an arrow between spaces.
abbrev pub arrow : Text
arrow = 0x20 ∷ 0xe2 ∷ 0x86 ∷ 0x92 ∷ 0x20 ∷ []

-- `source_label`: a value that was inherited names the link that set it.
unfoldable pub source_label : Text → List (Text × Text) → Text → Text
unfolding get Text-discrete
source_label name origins key = elim (get Text-discrete key origins) [
  | none ↦ name
  | some origin ↦ ite (Text-discrete origin name) name (name ++ arrow ++ origin)
]

abbrev pub file_overrides : Tiers → Option Overrides
file_overrides t = elim t.file [ none ↦ none | some (path, o) ↦ some o ]

abbrev pub file_source : Tiers → ConfigSource
file_source t = elim t.file [
  | none ↦ experiment_file (text "")
  | some (path, o) ↦ experiment_file path
]

abbrev pub topology_source : Tiers → ConfigSource
topology_source t = topology_profile t.topology.name

abbrev pub mode_source : Tiers → ConfigSource
mode_source t = mode_profile t.mode.name

-- `topo_src!`, `mode_src!` and `env_var!`
abbrev pub topo_src : Tiers → Text → ConfigSource
topo_src t key = topology_profile (source_label t.topology.name t.topology.origins key)

abbrev pub mode_src : Tiers → Text → ConfigSource
mode_src t key = mode_profile (source_label t.mode.name t.mode.origins key)

abbrev pub credited : Text → ConfigSource
credited name = env_var (text "CONFLUX_" ++ name)
