-- ===== src/Config/Profile/Nearest.antt =====
-- crates/conflux-config/src/profile.rs: which file of a chain decides a key.
use conflux_fl.Base.{
  ◌≡◌, sym, ap, subst, ◌∙◌, Bool, true, false, Option, none, some, List, [], ◌∷◌, if◌then◌else◌,
  Text, Text-discrete, Result, ok, err, map_err, bind-ok, ◌>>=◌, Any, inl, inr, if_pos, if_neg,
}
use conflux_fl.Base.Dict.{get, insert, get-insert}
use conflux_fl.Config.Axis.{Toml, Axis}
use conflux_fl.Config.Profile.{
  ProfileError, Table, LoadedFile, Merged, apply_key, apply_table, apply_files, base_origins,
  bad_value, wrong_key,
}

pub some_injective : {A : Type 0} (x y : A) → some x ≡ some y → x ≡ y
some_injective x y e = cc

pub ok_injective : {A : Type 0} (x y : A) → ◌≡◌ {A = Result ProfileError A} (ok x) (ok y) → x ≡ y
ok_injective x y e = cc

module _ (toml : Toml) (axis : Axis toml) (other_keys : List Text) where
  -- Which entry of a file is for the key.
  abbrev is_key : axis.Key → Option axis.Key → Bool
  is_key k none = false
  is_key k (some j) = elim (axis.Key-discrete j k) [ yes e ↦ true | no n ↦ false ]

  abbrev last_of : {A : Type 0} → Option A → Option A → Option A
  last_of earlier none = earlier
  last_of earlier (some later) = some later

  -- The value that a file gives to the key.
  abbrev pub stated : axis.Key → Table toml → Option toml.Value
  stated k [] = none
  stated k ((key, value) ∷ rest) =
      last_of (if is_key k (axis.key_of key) then some value else none) (stated k rest)

  abbrev pub origin_of : axis.Key → Merged toml axis other_keys → Option Text
  origin_of k m = get Text-discrete (axis.key_name k) m.1

  -- What a file makes of the key.
  abbrev Effect :
      axis.Key
      → Text
      → Option toml.Value
      → Merged toml axis other_keys
      → Merged toml axis other_keys
      → Type 0
  Effect k file (some value) before after =
      (axis.read k value ≡ ok (axis.get k after.0)) × (origin_of k after ≡ some file)
  Effect k file none before after =
      (axis.get k after.0 ≡ axis.get k before.0) × (origin_of k after ≡ origin_of k before)

  -- The file decides, if it states the key.
  abbrev pub Decides :
      (k : axis.Key) → Text → Option toml.Value → axis.KeyType k → Option Text → Type 0 → Type 0
  Decides k file (some raw) v o Otherwise = (axis.read k raw ≡ ok v) × (o ≡ some file)
  Decides k file none v o Otherwise = Otherwise

  -- Of the files of a chain the nearest that states the key decides it, and else the base.
  abbrev pub IsDecided :
      (k : axis.Key)
      → axis.KeyType k
      → Option Text
      → List (LoadedFile toml)
      → axis.KeyType k
      → Option Text
      → Type 0
  IsDecided k value label [] v o = (v ≡ value) × (o ≡ label)
  IsDecided k value label ((file, keys) ∷ farther) v o =
      Decides k file (stated k keys) v o (IsDecided k value label farther v o)

  map_err-ok :
      {A : Type 0} (f : Text → ProfileError) (r : Result Text A) (a : A)
      → map_err f r ≡ ok a
      → r ≡ ok a
  map_err-ok f (ok b) a e = cc
  map_err-ok f (err w) a e = cc

  key_name-injective : (j k : axis.Key) → axis.key_name j ≡ axis.key_name k → j ≡ k
  key_name-injective j k e =
      some_injective j k (sym (axis.key_of-key_name j) ∙ ap axis.key_of e ∙ axis.key_of-key_name k)

  -- One key that is written.
  set-Effect :
      (j k : axis.Key) (file : Text) (value : toml.Value) (v : axis.KeyType j)
      → (m : Merged toml axis other_keys) → axis.read j value ≡ ok v
      → Effect k file
          (if is_key k (some j) then some value else none)
          m
          (axis.set j v m.0, insert Text-discrete (axis.key_name j) file m.1)
  set-Effect j k file value v m e =
      elim (axis.Key-discrete j k)
        as (λ d.
          Effect k file (if (elim d [ yes e ↦ true | no n ↦ false ]) then some value else none) m
            (axis.set j v m.0, insert Text-discrete (axis.key_name j) file m.1)) [
              | yes p ↦ (
                subst (λ i. axis.read i value ≡ ok (axis.get i (axis.set j v m.0))) p
                    (e ∙ ap ok (sym (axis.get-set_self j v m.0))),
                get-insert Text-discrete (axis.key_name j) (axis.key_name k) file m.1
                    ∙ if_pos (Text-discrete _ _) (ap axis.key_name p) _ _,
              )
              | no n ↦ (
                axis.get-set_other j k v m.0 n,
                get-insert Text-discrete (axis.key_name j) (axis.key_name k) file m.1
                    ∙ if_neg (Text-discrete _ _) (λ q. n (key_name-injective j k q)) _ _,
              )
            ]

  Effect-last_of :
      (k : axis.Key) (file : Text) (s t : Option toml.Value)
      (m m' m'' : Merged toml axis other_keys)
      → Effect k file s m m'
      → Effect k file t m' m''
      → Effect k file (last_of s t) m m''
  Effect-last_of k file s (some value) m m' m'' a b = b
  Effect-last_of k file none none m m' m'' a b = (b.0 ∙ a.0, b.1 ∙ a.1)
  Effect-last_of k file (some value) none m m' m'' a b = (a.0 ∙ ap ok (sym b.0), b.1 ∙ a.1)

  apply_key-Effect :
      (k : axis.Key) (profile file key : Text) (value : toml.Value)
      (m : Merged toml axis other_keys)
      → (applied : axis.Key × axis.Defaults)
      → apply_key toml axis other_keys profile key value m.0 ≡ ok applied
      → Effect k file
          (if is_key k (axis.key_of key) then some value else none)
          m
          (applied.1, insert Text-discrete (axis.key_name applied.0) file m.1)
  unfolding apply_key
  apply_key-Effect k profile file key value m applied e = by_key (axis.key_of key) e
    where
      by_key :
          (o : Option axis.Key)
          → (elim o [
            | none ↦ err (wrong_key toml axis other_keys profile key)
            | some k ↦ (do
              v ← map_err (bad_value profile key) (axis.read k value)
              ok (k, axis.set k v m.0))
          ])
            ≡ ok applied
          → Effect k file
              (if is_key k o then some value else none)
              m
              (applied.1, insert Text-discrete (axis.key_name applied.0) file m.1)
      by_key none e = cc
      by_key (some j) e =
          let (v, read, made) = bind-ok (map_err (bad_value profile key) (axis.read j value)) _ e in
          subst
            (λ a.
              Effect k file (if is_key k (some j) then some value else none) m
                (a.1, insert Text-discrete (axis.key_name a.0) file m.1))
            (ok_injective _ _ made)
            (set-Effect j k file value v m (map_err-ok _ (axis.read j value) v read))

  apply_table-Effect :
      (k : axis.Key) (profile file : Text) (keys : Table toml) (m m' : Merged toml axis other_keys)
      → apply_table toml axis other_keys profile file keys m ≡ ok m'
      → Effect k file (stated k keys) m m'
  unfolding apply_table
  apply_table-Effect k profile file [] m m' e =
      let same = ok_injective m m' e in
      (ap (λ x. axis.get k x.0) (sym same), ap (origin_of k) (sym same))
  apply_table-Effect k profile file ((key, value) ∷ rest) m m' e =
      let (applied, one, others) =
        bind-ok (apply_key toml axis other_keys profile key value m.0) _ e in
      Effect-last_of k file _ (stated k rest) m _ m'
        (apply_key-Effect k profile file key value m applied one)
        (apply_table-Effect k profile file rest _ m' others)

  pub apply_files-IsDecided :
      (k : axis.Key) (profile : Text) (files : List (LoadedFile toml))
      (m m' : Merged toml axis other_keys)
      → apply_files toml axis other_keys profile files m ≡ ok m'
      → IsDecided k (axis.get k m.0) (origin_of k m) files (axis.get k m'.0) (origin_of k m')
  unfolding apply_files
  apply_files-IsDecided k profile [] m m' e =
      let same = ok_injective m m' e in
      (ap (λ x. axis.get k x.0) (sym same), ap (origin_of k) (sym same))
  apply_files-IsDecided k profile ((file, keys) ∷ farther) m m' e =
      let (m1, far, near) = bind-ok (apply_files toml axis other_keys profile farther m) _ e in
      by_effect m1 (stated k keys) (apply_table-Effect k profile file keys m1 m' near)
        (apply_files-IsDecided k profile farther m m1 far)
    where
      by_effect :
          (m1 : Merged toml axis other_keys) (s : Option toml.Value)
          → Effect k file s m1 m'
          → IsDecided k (axis.get k m.0) (origin_of k m) farther (axis.get k m1.0) (origin_of k m1)
          → Decides k file s (axis.get k m'.0) (origin_of k m') (
              IsDecided k
                (axis.get k m.0)
                (origin_of k m)
                farther
                (axis.get k m'.0)
                (origin_of k m'))
      by_effect m1 (some raw) effect rest = effect
      by_effect m1 none effect rest =
          subst (λ v. IsDecided k (axis.get k m.0) (origin_of k m) farther v (origin_of k m'))
            (sym effect.0)
            (subst (λ o. IsDecided k (axis.get k m.0) (origin_of k m) farther (axis.get k m1.0) o)
              (sym effect.1) rest)

  pub origin_of-base_origins :
      (k : axis.Key) (label : Text) (d : axis.Defaults) (keys : List axis.Key)
      → Any (λ j. j ≡ k) keys
      → origin_of k (d, base_origins toml axis other_keys keys label) ≡ some label
  unfolding base_origins
  origin_of-base_origins k label d [] h = absurd h
  origin_of-base_origins k label d (j ∷ keys) h =
      get-insert Text-discrete (axis.key_name j) (axis.key_name k) label _
      ∙ elim (Text-discrete (axis.key_name j) (axis.key_name k)) [
        | yes p ↦ if_pos (Text-discrete _ _) p _ _
        | no n ↦
            if_neg (Text-discrete _ _) n _ _
            ∙ origin_of-base_origins k label d keys
                (elim h [ inl p ↦ absurd (n (ap axis.key_name p)) | inr t ↦ t ])
      ]
