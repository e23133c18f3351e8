-- ===== src/Privacy/Accountant.antt =====
-- crates/conflux-privacy/src/lib.rs: `RdpAccountant`, the experiment's history and every client's own.
use conflux_fl.Base.{
  ◌≡◌, refl, sym, ap, ◌∙◌, Bool, true, Option, none, some, Option-cases, List, [], ◌∷◌, ◌++◌, arith,
  Text, Text-discrete, ite, if◌then◌else◌,
}
use mathlib.Core.List.{append-nil, append_assoc}
use conflux_fl.Base.Dict.{get, insert, keys, get-insert}
use conflux_fl.Float.{F32, F64, Arithmetic64}
use conflux_fl.Privacy.Rdp.{Exposure, Tally, zero_f64, epsilon_from_rounds}

pub record RdpAccountant : Type 0 where
  pub rounds : List Exposure
  pub client_rounds : List (Text × List Exposure)

unfoldable pub new : RdpAccountant
new = record { rounds = []; client_rounds = [] }

unfoldable pub record_round : F32 → F32 → RdpAccountant → RdpAccountant
record_round noise_multiplier sample_rate a = record a {
  rounds = a.rounds ++ (noise_multiplier, sample_rate) ∷ [];
}

abbrev pub or_default : Option (List Exposure) → List Exposure
or_default none = []
or_default (some rounds) = rounds

unfoldable pub record_round_for_client : Text → F32 → F32 → RdpAccountant → RdpAccountant
record_round_for_client client_id noise_multiplier sample_rate a = record a {
  client_rounds =
      insert Text-discrete client_id
        (or_default (get Text-discrete client_id a.client_rounds)
          ++ (noise_multiplier, sample_rate) ∷ [])
        a.client_rounds;
}

unfoldable pub client_ids : RdpAccountant → List Text
client_ids a = keys a.client_rounds

module _ (ops : Arithmetic64) (iteration : List Tally → List Tally) where
  open ops use {less, equal}

  unfoldable pub current_epsilon : F64 → RdpAccountant → F64
  current_epsilon delta a = epsilon_from_rounds ops iteration a.rounds delta

  unfoldable pub budget_exhausted : F64 → F64 → RdpAccountant → Bool
  unfolding current_epsilon
  budget_exhausted target_epsilon delta a =
      let spent = current_epsilon delta a in
      if less target_epsilon spent then true else equal target_epsilon spent

  unfoldable pub current_epsilon_for_client : Text → F64 → RdpAccountant → F64
  current_epsilon_for_client client_id delta a =
      elim (get Text-discrete client_id a.client_rounds) [
        | some rounds ↦ epsilon_from_rounds ops iteration rounds delta
        | none ↦ zero_f64
      ]

  unfoldable pub budget_exhausted_for_client : Text → F64 → F64 → RdpAccountant → Bool
  unfolding current_epsilon_for_client
  budget_exhausted_for_client client_id target_epsilon delta a =
      let spent = current_epsilon_for_client client_id delta a in
      if less target_epsilon spent then true else equal target_epsilon spent

-- A call that records exposure.
pub data Recorded : Type 0 where
  for_round : Exposure → Recorded
  for_client : Text → Exposure → Recorded

unfoldable pub record_calls : RdpAccountant → List Recorded → RdpAccountant
record_calls a [] = a
record_calls a (for_round (noise, rate) ∷ cs) = record_calls (record_round noise rate a) cs
record_calls a (for_client id (noise, rate) ∷ cs) =
    record_calls (record_round_for_client id noise rate a) cs

-- The exposures of the experiment, and those of one client, among the calls.
abbrev pub experiment : List Recorded → List Exposure
experiment [] = []
experiment (for_round e ∷ cs) = e ∷ experiment cs
experiment (for_client id e ∷ cs) = experiment cs

unfoldable pub own : Text → List Recorded → List Exposure
own id [] = []
own id (for_round e ∷ cs) = own id cs
own id (for_client j e ∷ cs) = let rest = own id cs in ite (Text-discrete j id) (e ∷ rest) rest

abbrev pub history : Text → RdpAccountant → List Exposure
history id a = or_default (get Text-discrete id a.client_rounds)

rounds-record_calls :
    (cs : List Recorded) (a : RdpAccountant)
    → (record_calls a cs).rounds ≡ a.rounds ++ experiment cs
unfolding record_calls record_round record_round_for_client
rounds-record_calls [] a = sym (append-nil a.rounds)
rounds-record_calls (for_round (noise, rate) ∷ cs) a =
    rounds-record_calls cs (record_round noise rate a)
    ∙ append_assoc a.rounds ((noise, rate) ∷ []) (experiment cs)
rounds-record_calls (for_client id (noise, rate) ∷ cs) a =
    rounds-record_calls cs (record_round_for_client id noise rate a)

or_default-ite :
    (id j : Text) (d : Dec (j ≡ id)) (clients : List (Text × List Exposure)) (e : Exposure)
    → or_default (
        ite d
          (some (or_default (get Text-discrete j clients) ++ e ∷ []))
          (get Text-discrete id clients))
      ≡ ite d
          (or_default (get Text-discrete id clients) ++ e ∷ [])
          (or_default (get Text-discrete id clients))
or_default-ite id j (yes p) clients e =
    ap (λ k. or_default (get Text-discrete k clients) ++ e ∷ []) p
or_default-ite id j (no n) clients e = refl

append-ite :
    {P : Type 0} (d : Dec P) (before : List Exposure) (e : Exposure) (after : List Exposure)
    → ite d (before ++ e ∷ []) before ++ after ≡ before ++ ite d (e ∷ after) after
append-ite (yes p) before e after = append_assoc before (e ∷ []) after
append-ite (no n) before e after = refl

history-record_round_for_client :
    (id j : Text) (noise rate : F32) (a : RdpAccountant)
    → history id (record_round_for_client j noise rate a)
      ≡ ite (Text-discrete j id) (history id a ++ (noise, rate) ∷ []) (history id a)
unfolding record_round_for_client
history-record_round_for_client id j noise rate a =
    rw (get-insert Text-discrete j id (history j a ++ (noise, rate) ∷ []) a.client_rounds)
      (or_default-ite id j (Text-discrete j id) a.client_rounds (noise, rate))

history-record_calls :
    (id : Text) (cs : List Recorded) (a : RdpAccountant)
    → history id (record_calls a cs) ≡ history id a ++ own id cs
unfolding record_calls record_round own
history-record_calls id [] a = sym (append-nil (history id a))
history-record_calls id (for_round (noise, rate) ∷ cs) a =
    history-record_calls id cs (record_round noise rate a)
history-record_calls id (for_client j (noise, rate) ∷ cs) a =
    history-record_calls id cs (record_round_for_client j noise rate a)
    ∙ ap (λ h. h ++ own id cs) (history-record_round_for_client id j noise rate a)
    ∙ append-ite (Text-discrete j id) (history id a) (noise, rate) (own id cs)

module _ (ops : Arithmetic64) (iteration : List Tally → List Tally) where
  epsilon-history :
      (id : Text) (delta : F64) (a : RdpAccountant)
      → current_epsilon_for_client ops iteration id delta a
        ≡ epsilon_from_rounds ops iteration (history id a) delta
  unfolding current_epsilon_for_client epsilon_from_rounds
  epsilon-history id delta a = ground (arith, Option-cases (get Text-discrete id a.client_rounds))

  -- Nobody pays for another's exposure: after any calls, in any order, the experiment's epsilon is
  -- that of the rounds recorded for it, and a client's epsilon is that of exactly the rounds recorded
  -- for this client, each in the order of the calls. A client that took part in none has spent what
  -- no rounds cost.
  pub epsilon-record_calls :
      (id : Text) (delta : F64) (cs : List Recorded)
      → (current_epsilon ops iteration delta (record_calls new cs)
          ≡ epsilon_from_rounds ops iteration (experiment cs) delta)
        × (current_epsilon_for_client ops iteration id delta (record_calls new cs)
            ≡ epsilon_from_rounds ops iteration (own id cs) delta)
  unfolding current_epsilon new get
  epsilon-record_calls id delta cs = (
    ap (λ r. epsilon_from_rounds ops iteration r delta) (rounds-record_calls cs new),
    epsilon-history id delta (record_calls new cs)
        ∙ ap (λ r. epsilon_from_rounds ops iteration r delta) (history-record_calls id cs new),
  )
