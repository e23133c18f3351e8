-- ===== src/Config/Profile.antt =====
-- crates/conflux-config/src/profile.rs: the profile files of a directory, followed down their
-- `inherits` to a builtin. A directory holds the text of a file by the name that finds it, or why it
-- cannot be read. The wording of errors is left out.
pub mod Chain
pub mod Nearest
pub mod Loaded
pub mod Named
pub mod Credited
use conflux_fl.Base.{
  ℕ, zero, suc, Bool, true, false, Option, none, some, List, [], ◌∷◌, ◌++◌, map, if◌then◌else◌, ite,
  Text, text, Text-discrete, Result, ok, err, map_err, ◌>>=◌, length,
}
use conflux_fl.Base.Dict.{get, insert}
use conflux_fl.Config.Axis.{Toml, Axis}
use conflux_fl.Config.Validate.{one_of}

pub data ProfileError : Type 0 where
  not_found : Text → ProfileError
  io : Text → Text → ProfileError
  parse : Text → Text → ProfileError
  shadows_builtin : Text → ProfileError
  missing_inherits : Text → ProfileError
  cycle : List Text → ProfileError
  unknown_key : Text → ProfileError
  wrong_axis : Text → Text → ProfileError
  bad_value : Text → Text → Text → ProfileError

abbrev pub Dir : Type 0
Dir = List (Text × Result Text Text)

-- `Path::exists`
unfoldable pub exists : Text → Dir → Bool
unfolding get Text-discrete
exists name dir = elim (get Text-discrete name dir) [ none ↦ false | some file ↦ true ]

abbrev pub inherits : Text
inherits = text "inherits"

abbrev expects_a_name : Text
expects_a_name = text "expected a profile or builtin name as a string"

abbrev pub or_else : {A : Type 0} → Option A → A → A
or_else none a = a
or_else (some b) a = b

module _ (toml : Toml) where
  abbrev pub Table : Type 0
  Table = List (Text × toml.Value)

  -- `LoadedFile`
  abbrev pub LoadedFile : Type 0
  LoadedFile = Text × Table

  -- The loop over the entries of a file: the base that it extends, and its own keys.
  unfoldable pub split : Text → Table → Result ProfileError (Option Text × Table)
  unfolding Text-discrete
  split name [] = ok (none, [])
  split name ((key, value) ∷ rest) =
      let later = split name rest in
      ite (Text-discrete key inherits)
        (elim (toml.as_str value) [
          | none ↦ err (bad_value name key expects_a_name)
          | some base ↦ (do l ← later; ok (some (or_else l.0 base), l.1))
        ])
        (do l ← later; ok (l.0, (key, value) ∷ l.1))

  -- The file `name`, read, parsed and split.
  unfoldable pub load_file : Text → Option (Result Text Text) → Result ProfileError (Text × Table)
  unfolding split
  load_file name none = err (not_found name)
  load_file name (some file) = do
    source ← map_err (io name) file
    table ← map_err (parse name) (toml.parse source)
    own ← split name table
    elim own.0 [ none ↦ err (missing_inherits name) | some base ↦ ok (base, own.1) ]

  -- One turn of `load_chain`.
  pub data Visit : Type 0 where
    fails : ProfileError → Visit
    ends : Visit
    extends : Text → Table → Visit

  abbrev pub visited_file : Result ProfileError (Text × Table) → Visit
  visited_file (err e) = fails e
  visited_file (ok own) = extends own.0 own.1

  module _ (builtins : List Text) (dir : Dir) where
    unfoldable pub visit : List Text → Text → Visit
    unfolding one_of exists load_file get Text-discrete
    visit visited current =
        if one_of current builtins
        then (if exists current dir then fails (shadows_builtin current) else ends)
        else (if one_of current visited
            then fails (cycle (visited ++ current ∷ []))
            else visited_file (load_file current (get Text-discrete current dir)))

    abbrev pub joined :
        Text
        → Table
        → Option (Result ProfileError (List LoadedFile × Text))
        → Option (Result ProfileError (List LoadedFile × Text))
    joined name keys none = none
    joined name keys (some r) = some (do l ← r; ok ((name, keys) ∷ l.0, l.1))

    -- What a turn leads to: the end of the loop, or its `next` turn and what that leads to.
    abbrev pub after :
        List Text
        → Text
        → (List Text → Text → Option (Result ProfileError (List LoadedFile × Text)))
        → Visit
        → Option (Result ProfileError (List LoadedFile × Text))
    after visited current next (fails e) = some (err e)
    after visited current next ends = some (ok ([], current))
    after visited current next (extends base keys) =
        joined current keys (next (visited ++ current ∷ []) base)

    -- The loop of `load_chain`, on fuel: none is that it ran out.
    unfoldable pub load_chain :
        ℕ → List Text → Text → Option (Result ProfileError (List LoadedFile × Text))
    unfolding visit
    load_chain zero visited current = none
    load_chain (suc fuel) visited current =
        after visited current (load_chain fuel) (visit visited current)

  module _ (axis : Axis toml) (other_keys : List Text) where
    -- The values so far, and which file set each key.
    abbrev pub Merged : Type 0
    Merged = axis.Defaults × List (Text × Text)

    -- `wrong_key`, less the suggestion
    unfoldable pub wrong_key : Text → Text → ProfileError
    unfolding one_of
    wrong_key profile key =
        if one_of key other_keys then wrong_axis profile key else unknown_key key

    -- `apply_topology_key` and `apply_mode_key`
    unfoldable pub apply_key :
        Text → Text → toml.Value → axis.Defaults → Result ProfileError (axis.Key × axis.Defaults)
    unfolding wrong_key
    apply_key profile key value defaults = elim (axis.key_of key) [
      | none ↦ err (wrong_key profile key)
      | some k ↦ (do
        v ← map_err (bad_value profile key) (axis.read k value)
        ok (k, axis.set k v defaults))
    ]

    -- The keys of one file.
    unfoldable pub apply_table : Text → Text → Table → Merged → Result ProfileError Merged
    unfolding apply_key insert Text-discrete
    apply_table profile file [] merged = ok merged
    apply_table profile file ((key, value) ∷ rest) merged = do
      applied ← apply_key profile key value merged.0
      apply_table profile file rest
          (applied.1, insert Text-discrete (axis.key_name applied.0) file merged.1)

    -- `files.iter().rev()`: the nearest file is the first of the list, and is applied last.
    unfoldable pub apply_files : Text → List LoadedFile → Merged → Result ProfileError Merged
    unfolding apply_table
    apply_files profile [] merged = ok merged
    apply_files profile ((file, keys) ∷ farther) merged = do
      m ← apply_files profile farther merged
      apply_table profile file keys m

    unfoldable pub base_origins : List axis.Key → Text → List (Text × Text)
    unfolding insert Text-discrete
    base_origins [] label = []
    base_origins (k ∷ ks) label =
        insert Text-discrete (axis.key_name k) label (base_origins ks label)

    -- `ALL.iter().find(|t| t.label() == label)`
    unfoldable pub find_base : List axis.Base → Text → Option axis.Base
    unfolding Text-discrete
    find_base [] label = none
    find_base (b ∷ bs) label =
        let rest = find_base bs label in ite (Text-discrete (axis.label b) label) (some b) rest

    pub record Profile : Type 0 where
      pub name : Text
      pub base : axis.Base
      pub defaults : axis.Defaults
      pub chain : List Text
      pub origins : List (Text × Text)

    unfoldable pub merge_profile :
        Text → List LoadedFile → Text → axis.Base → Result ProfileError Profile
    unfolding apply_files base_origins
    merge_profile name files label base = do
      m ← apply_files name files (axis.defaults base, base_origins axis.keys label)
      ok (record {
        name = name;
        base = base;
        defaults = m.0;
        chain = map (λ f. f.0) files ++ label ∷ [];
        origins = m.1;
      })

    abbrev pub on_base :
        Text → List LoadedFile → Text → Option axis.Base → Option (Result ProfileError Profile)
    on_base name files label none = none
    on_base name files label (some base) = some (merge_profile name files label base)

    -- The loader after the loop over the chain. None is a panic of the `expect`.
    unfoldable pub settle :
        Text
        → Option (Result ProfileError (List LoadedFile × Text))
        → Option (Result ProfileError Profile)
    unfolding find_base merge_profile
    settle name none = none
    settle name (some (err e)) = some (err e)
    settle name (some (ok (files, label))) = on_base name files label (find_base axis.bases label)

    -- `load_topology_profile` and `load_mode_profile`. The fuel is one more than the directory has
    -- files.
    unfoldable pub load_profile : Dir → Text → Option (Result ProfileError Profile)
    unfolding load_chain settle
    load_profile dir name =
        settle name (load_chain (map axis.label axis.bases) dir (suc (length dir)) [] name)
