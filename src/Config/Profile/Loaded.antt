-- ===== src/Config/Profile/Loaded.antt =====
-- crates/conflux-config/src/profile.rs, `load_topology_profile` and `load_mode_profile`: a profile always
-- loads or is refused, and what a loaded one holds.
use conflux_fl.Base.{
  suc, ◌≡◌, refl, sym, ap, subst, ◌∙◌, true, false, some, List, [], ◌∷◌, ◌++◌, map, if_pos, if_neg,
  Text, Text-discrete, Result, ok, err, bind-ok, arith, length,
}
use conflux_fl.Config.Axis.{Toml, Axis}
use conflux_fl.Config.Profile.{
  settle, on_base, ProfileError, Dir, LoadedFile, exists, Profile, find_base, merge_profile,
  load_profile, apply_files, base_origins,
}
use conflux_fl.Config.Profile.Chain.{
  unvisited_none, load_chain-returns, Links, Ends, load_chain-Ends,
}
use conflux_fl.Config.Profile.Nearest.{
  some_injective, ok_injective, IsDecided, origin_of, apply_files-IsDecided, origin_of-base_origins,
}
use conflux_fl.Config.Validate.{one_of}

module _ (toml : Toml) (axis : Axis toml) (other_keys : List Text) (dir : Dir) where
  -- The labels of the builtins, which a chain may end at.
  abbrev pub builtins : List Text
  builtins = map axis.label axis.bases

  find_base-some :
      (bases : List axis.Base) (label : Text)
      → one_of label (map axis.label bases) ≡ true
      → (b : axis.Base) × (find_base toml axis other_keys bases label ≡ some b)
        × (axis.label b ≡ label)
  unfolding find_base one_of
  find_base-some [] label h = cc
  find_base-some (b ∷ bases) label h = elim (Text-discrete (axis.label b) label) [
    | yes e ↦ (b, if_pos (Text-discrete _ _) e _ _, e)
    | no n ↦
        let (b', e, same) =
          find_base-some bases label (sym (if_neg (Text-discrete _ _) (λ q. n (sym q)) _ _) ∙ h) in
        (b', if_neg (Text-discrete _ _) n _ _ ∙ e, same)
  ]

  settle-returns :
      (name : Text) (r : Result ProfileError (List (LoadedFile toml) × Text))
      → Ends toml builtins dir [] name r
      → (p : Result ProfileError (Profile toml axis other_keys)) × (settle toml axis other_keys name
            (some r)
          ≡ some p)
  unfolding settle
  settle-returns name (err e) end = (err e, refl)
  settle-returns name (ok (files, label)) (linked, known, free) =
      let (base, found, same) = find_base-some axis.bases label known in
      (_, ap (on_base toml axis other_keys name files label) found)

  -- Loading always answers, with a profile or an error: no chain of `inherits` is followed forever, a
  -- cycle included, and the builtin that it ends at is always there.
  pub load_profile-returns :
      (name : Text)
      → (r : Result ProfileError (Profile toml axis other_keys)) × (load_profile toml axis
            other_keys dir name
          ≡ some r)
  unfolding load_profile
  load_profile-returns name =
      let (r, e) =
        load_chain-returns toml builtins dir (suc (length dir)) [] name
          (omega (arith, unvisited_none dir)) in
      let (p, settled) =
        settle-returns name r (load_chain-Ends toml builtins dir (suc (length dir)) [] name r e) in
      (p, ap (settle toml axis other_keys name) e ∙ settled)

  -- A profile that was loaded: its chain of files, and every key as the nearest of them decides.
  pub record IsLoaded (name : Text) (p : Profile toml axis other_keys) : Type 0 where
    pub files : List (LoadedFile toml)
    pub named : p.name ≡ name
    pub linked : Links toml builtins dir [] files name (axis.label p.base)
    pub unshadowed : exists (axis.label p.base) dir ≡ false
    pub recorded : p.chain ≡ map (λ f. f.0) files ++ axis.label p.base ∷ []
    pub decided :
        (k : axis.Key)
        → IsDecided toml axis other_keys k
            (axis.get k (axis.defaults p.base))
            (some (axis.label p.base))
            files
            (axis.get k p.defaults)
            (origin_of toml axis other_keys k (p.defaults, p.origins))

  merge_profile-IsLoaded :
      (name : Text) (files : List (LoadedFile toml)) (label : Text) (base : axis.Base)
      → (p : Profile toml axis other_keys) → axis.label base ≡ label
      → Ends toml builtins dir [] name (ok (files, label))
      → merge_profile toml axis other_keys name files label base ≡ ok p
      → IsLoaded name p
  unfolding merge_profile
  merge_profile-IsLoaded name files label base p same (linked, known, free) e =
      let (m, applied, made) =
        bind-ok
          (apply_files toml axis other_keys name files
            (axis.defaults base, base_origins toml axis other_keys axis.keys label))
          _ e in
      subst (λ p. IsLoaded name p) (ok_injective _ _ made)
        (record {
          files = files;
          named = refl;
          linked = subst (λ l. Links toml builtins dir [] files name l) (sym same) linked;
          unshadowed = subst (λ l. exists l dir ≡ false) (sym same) free;
          recorded = ap (λ l. map (λ f. f.0) files ++ l ∷ []) (sym same);
          decided = λ k.
              subst
                (λ o.
                  IsDecided toml axis other_keys k (axis.get k (axis.defaults base)) o files
                    (axis.get k m.0) (origin_of toml axis other_keys k m))
                (origin_of-base_origins toml axis other_keys k label (axis.defaults base) axis.keys
                    (axis.listed k)
                  ∙ ap some (sym same))
                (apply_files-IsDecided toml axis other_keys k name files _ m applied);
        })

  settle-IsLoaded :
      (name : Text) (p : Profile toml axis other_keys)
      → (r : Result ProfileError (List (LoadedFile toml) × Text)) → Ends toml builtins dir [] name r
      → settle toml axis other_keys name (some r) ≡ some (ok p)
      → IsLoaded name p
  unfolding settle
  settle-IsLoaded name p (err why) end e = cc
  settle-IsLoaded name p (ok (files, label)) end e =
      let (base, found, same) = find_base-some axis.bases label end.1 in
      merge_profile-IsLoaded name files label base p same end
        (some_injective _ _ (sym (ap (on_base toml axis other_keys name files label) found) ∙ e))

  -- A profile that loads stands on a chain of files, each the base of the one before it, none of them
  -- twice, down to a builtin that no file shadows. Every key has the value of the nearest file that
  -- states it, and that file for its origin; a key that no file states has the builtin's value, and
  -- the builtin for its origin.
  pub load_profile-IsLoaded :
      (name : Text) (p : Profile toml axis other_keys)
      → load_profile toml axis other_keys dir name ≡ some (ok p)
      → IsLoaded name p
  unfolding load_profile
  load_profile-IsLoaded name p e =
      let (r, chained) =
        load_chain-returns toml builtins dir (suc (length dir)) [] name
          (omega (arith, unvisited_none dir)) in
      settle-IsLoaded name p r
        (load_chain-Ends toml builtins dir (suc (length dir)) [] name r chained)
        (sym (ap (settle toml axis other_keys name) chained) ∙ e)
