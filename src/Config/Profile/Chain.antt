-- ===== src/Config/Profile/Chain.antt =====
-- crates/conflux-config/src/profile.rs, `load_chain`: its loop ends, and what it ends with.
use conflux_fl.Base.{
  ℕ, zero, suc, ◌<◌, ◌≤◌, ◌≡◌, refl, sym, ap, subst, Bool, true, false, ◌||◌, Option, none, some,
  List, [], ◌∷◌, ◌++◌, map, if◌then◌else◌, Text, Text-discrete, Result, ok, err, arith, length,
}
use mathlib.Core.List.{append_assoc, append-nil}
use conflux_fl.Base.Dict.{get}
use conflux_fl.Config.Axis.{Toml}
use conflux_fl.Config.Profile.{
  ProfileError, Dir, exists, LoadedFile, Table, load_file, Visit, fails, ends, extends,
  visited_file, visit, joined, after, shadows_builtin, cycle, load_chain,
}
use conflux_fl.Config.Validate.{one_of}

one_of-append :
    (name new : Text) (names : List Text)
    → one_of name (names ++ new ∷ []) ≡ (one_of name names || one_of name (new ∷ []))
unfolding one_of
one_of-append name new [] = ground arith
one_of-append name new (n ∷ names) = ground (arith, one_of-append name new names)

-- How many files of the directory have not been visited.
abbrev pub unvisited : List Text → Dir → ℕ
unvisited visited [] = 0
unvisited visited ((name, file) ∷ dir) =
    let rest = unvisited visited dir in if one_of name visited then rest else suc rest

unvisited_fewer :
    (visited : List Text) (new : Text) (dir : Dir)
    → unvisited (visited ++ new ∷ []) dir ≤ unvisited visited dir
unvisited_fewer visited new [] = omega arith
unvisited_fewer visited new ((name, file) ∷ dir) =
    ground (arith, unvisited_fewer visited new dir, one_of-append name new visited)

one_of_self : (name : Text) → one_of name (name ∷ []) ≡ true
unfolding one_of
one_of_self name = ground arith

one_of_other : (name other : Text) → ¬ (name ≡ other) → one_of name (other ∷ []) ≡ false
unfolding one_of
one_of_other name other h = ground arith

unvisited_drops :
    (visited : List Text) (new : Text) (file : Result Text Text) (dir : Dir)
    → get Text-discrete new dir ≡ some file
    → one_of new visited ≡ false
    → unvisited (visited ++ new ∷ []) dir < unvisited visited dir
unfolding get
unvisited_drops visited new file [] e h = cc
unvisited_drops visited new file ((name, f) ∷ dir) e h = elim (Text-discrete name new) [
  | yes p ↦
      let seen : one_of name (visited ++ new ∷ []) ≡ true =
        subst (λ x. one_of x (visited ++ new ∷ []) ≡ true) (sym p)
          (ground (arith, one_of-append new new visited, one_of_self new)) in
      let unseen : one_of name visited ≡ false = subst (λ x. one_of x visited ≡ false) (sym p) h in
      ground (arith, unvisited_fewer visited new dir)
  | no n ↦
      let drop = unvisited_drops visited new file dir (ground arith) h in
      let same = one_of-append name new visited in
      let other : one_of name (new ∷ []) ≡ false = one_of_other name new n in ground arith
]

pub unvisited_none : (dir : Dir) → unvisited [] dir ≡ length dir
unfolding one_of
unvisited_none [] = refl
unvisited_none ((name, file) ∷ dir) = ap suc (unvisited_none dir)

injective : {A : Type 0} (x y : A) → some x ≡ some y → x ≡ y
injective x y e = cc

module _ (toml : Toml) (builtins : List Text) (dir : Dir) where
  -- What a turn that goes on to a base has seen.
  abbrev pub IsExtension : List Text → Text → Text → Table toml → Type 0
  IsExtension visited name base keys =
      (one_of name builtins ≡ false)
      × (one_of name visited ≡ false)
      × (load_file toml name (get Text-discrete name dir) ≡ ok (base, keys))

  visit-IsExtension :
      (visited : List Text) (name base : Text) (keys : Table toml)
      → visit toml builtins dir visited name ≡ extends base keys
      → IsExtension visited name base keys
  unfolding visit
  visit-IsExtension visited name base keys e =
      by_tests (one_of name builtins) (exists name dir) (one_of name visited)
        (load_file toml name (get Text-discrete name dir)) e
    where
      by_tests :
          (builtin there seen : Bool) (own : Result ProfileError (Text × Table toml))
          → (if builtin
              then (if there then fails (shadows_builtin name) else ends)
              else (if seen then fails (cycle (visited ++ name ∷ [])) else visited_file toml own))
            ≡ extends base keys
          → (builtin ≡ false) × (seen ≡ false) × (own ≡ ok (base, keys))
      by_tests true true seen own e = cc
      by_tests true false seen own e = cc
      by_tests false there true own e = cc
      by_tests false there false (err why) e = cc
      by_tests false there false (ok own) e = (refl, refl, cc)

  load_file-some :
      (name : Text) (found : Option (Result Text Text)) (own : Text × Table toml)
      → load_file toml name found ≡ ok own
      → (file : Result Text Text) × (found ≡ some file)
  unfolding load_file
  load_file-some name none own e = cc
  load_file-some name (some file) own e = (file, refl)

  pub load_chain-returns :
      (fuel : ℕ) (visited : List Text) (name : Text)
      → unvisited visited dir < fuel
      → (r : Result ProfileError (List (LoadedFile toml) × Text)) × (load_chain toml builtins dir
            fuel visited name
          ≡ some r)
  unfolding load_chain
  load_chain-returns zero visited name h = absurd (omega (arith, h))
  load_chain-returns (suc fuel) visited name h =
      by_visit (visit toml builtins dir visited name) refl
        (λ base fewer. load_chain-returns fuel (visited ++ name ∷ []) base fewer)
    where
      by_visit :
          (v : Visit toml)
          → visit toml builtins dir visited name ≡ v
          → ((base : Text)
              → unvisited (visited ++ name ∷ []) dir < fuel
              → (r : Result ProfileError (List (LoadedFile toml) × Text)) × (load_chain toml
                    builtins dir fuel
                    (visited ++ name ∷ [])
                    base
                  ≡ some r))
          → (r : Result ProfileError (List (LoadedFile toml) × Text)) × (after toml builtins dir
                visited name
                (load_chain toml builtins dir fuel)
                v
              ≡ some r)
      by_visit (fails e) seen rest = (err e, refl)
      by_visit ends seen rest = (ok ([], name), refl)
      by_visit (extends base keys) seen rest =
          let (_, new, loaded) = visit-IsExtension visited name base keys seen in
          let (file, found) = load_file-some name _ (base, keys) loaded in
          let fewer = unvisited_drops visited name file dir found new in
          let (r, e) = rest base (omega (arith, h, fewer)) in
          (_, ap (joined toml builtins dir name keys) e)

  -- The files between a name and the link that it leads to, each the base of the one before it, none
  -- of them a builtin and none visited twice.
  abbrev pub Links : List Text → List (LoadedFile toml) → Text → Text → Type 0
  Links visited [] name last = name ≡ last
  Links visited ((file, keys) ∷ farther) name last =
      (file ≡ name)
      × ((base : Text) × IsExtension visited name base keys
          × Links (visited ++ name ∷ []) farther base last)

  -- A chain ends at a builtin that no file shadows, or where a turn fails.
  abbrev pub Ends : List Text → Text → Result ProfileError (List (LoadedFile toml) × Text) → Type 0
  Ends visited name (ok (files, label)) =
      Links visited files name label × (one_of label builtins ≡ true) × (exists label dir ≡ false)
  Ends visited name (err e) =
      (files : List (LoadedFile toml)) × (last : Text) × Links visited files name last
      × (visit toml builtins dir (visited ++ map (λ f. f.0) files) last ≡ fails e)

  visit-ends :
      (visited : List Text) (name : Text)
      → visit toml builtins dir visited name ≡ ends
      → (one_of name builtins ≡ true) × (exists name dir ≡ false)
  unfolding visit
  visit-ends visited name e =
      by_tests (one_of name builtins) (exists name dir) (one_of name visited)
        (load_file toml name (get Text-discrete name dir)) e
    where
      by_tests :
          (builtin there seen : Bool) (own : Result ProfileError (Text × Table toml))
          → (if builtin
              then (if there then fails (shadows_builtin name) else ends)
              else (if seen then fails (cycle (visited ++ name ∷ [])) else visited_file toml own))
            ≡ ends
          → (builtin ≡ true) × (there ≡ false)
      by_tests true true seen own e = cc
      by_tests true false seen own e = (refl, refl)
      by_tests false there true own e = cc
      by_tests false there false (err why) e = cc
      by_tests false there false (ok own) e = cc

  pub load_chain-Ends :
      (fuel : ℕ) (visited : List Text) (name : Text)
      → (r : Result ProfileError (List (LoadedFile toml) × Text))
      → load_chain toml builtins dir fuel visited name ≡ some r
      → Ends visited name r
  unfolding load_chain
  load_chain-Ends zero visited name r e = cc
  load_chain-Ends (suc fuel) visited name r e =
      by_visit (visit toml builtins dir visited name) refl e
        (λ base. load_chain-Ends fuel (visited ++ name ∷ []) base)
    where
      by_visit :
          (v : Visit toml)
          → visit toml builtins dir visited name ≡ v
          → after toml builtins dir visited name (load_chain toml builtins dir fuel) v ≡ some r
          → ((base : Text) (r : Result ProfileError (List (LoadedFile toml) × Text))
              → load_chain toml builtins dir fuel (visited ++ name ∷ []) base ≡ some r
              → Ends (visited ++ name ∷ []) base r)
          → Ends visited name r
      by_visit (fails why) seen e rest =
          subst (λ x. Ends visited name x) (injective _ _ e)
            (
              [],
              name,
              refl,
              subst (λ v. visit toml builtins dir v name ≡ fails why) (sym (append-nil visited))
                  seen,
            )
      by_visit ends seen e rest =
          subst (λ x. Ends visited name x) (injective _ _ e)
            (let (b, x) = visit-ends visited name seen in (refl, b, x))
      by_visit (extends base keys) seen e rest =
          by_rest (load_chain toml builtins dir fuel (visited ++ name ∷ []) base) (rest base) r e
        where
          by_rest :
              (l : Option (Result ProfileError (List (LoadedFile toml) × Text)))
              → ((r : Result ProfileError (List (LoadedFile toml) × Text))
                  → l ≡ some r
                  → Ends (visited ++ name ∷ []) base r)
              → (r : Result ProfileError (List (LoadedFile toml) × Text))
              → joined toml builtins dir name keys l ≡ some r
              → Ends visited name r
          by_rest none go r e = cc
          by_rest (some (err why)) go r e =
              let (files, last, links, stuck) = go (err why) refl in
              subst (λ x. Ends visited name x) (injective _ _ e)
                (
                  (name, keys) ∷ files,
                  last,
                  (refl, (base, visit-IsExtension visited name base keys seen, links)),
                  subst (λ v. visit toml builtins dir v last ≡ fails why)
                      (append_assoc visited (name ∷ []) (map (λ f. f.0) files)) stuck,
                )
          by_rest (some (ok l)) go r e =
              let (links, b, x) = go (ok l) refl in
              subst (λ x. Ends visited name x) (injective _ _ e)
                ((refl, (base, visit-IsExtension visited name base keys seen, links)), b, x)
