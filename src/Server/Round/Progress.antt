-- ===== src/Server/Round/Progress.antt =====
-- crates/conflux-server/src/round.rs: what a round that fails leaves as it was, and what one that
-- completes has done.
use conflux_fl.Base.{
  ℕ, ◌+◌, ◌%◌, ◌≡◌, refl, ap, ap₂, map, ◌^◌, ◌∙◌, Option, none, List, [], ◌∷◌, ◌++◌, Result, ok,
  err, arith, length, Text,
}
use conflux_fl.Float.{F32}
use conflux_fl.Proto.{ClientDelta}
use conflux_fl.Buffer.{FlushResult, FlushReason}
use conflux_fl.Config.{ResolvedConfig}
use conflux_fl.Privacy.Accountant.{RdpAccountant, record_round, record_round_for_client}
use conflux_fl.Server.Admission.{admit}
use conflux_fl.Server.Error.{ServerError}
use conflux_fl.Server.History.{RoundSummary}
use conflux_fl.Server.Round.{
  Opened, Outcome, and_then, check_batch_requirement, fetch_and_inject_trusted_reference,
  fetch_and_inject_candidate_scores, inject_reference, inject_scores, consult_sidecar,
  aggregate_batch, save, record_clients, sample_rate, record_round_privacy_cost, complete, finish,
  close_sorted, close_round, sorted_by_client,
}
use conflux_fl.Server.State.{Environment, AppState}

module _ (env : Environment) where
  -- The round's number, its buffer, the history and what was broadcast.
  abbrev pub Kept : AppState env → AppState env → Type 0
  Kept s s' =
      (s'.round ≡ s.round)
      × (s'.current_buffer ≡ s.current_buffer)
      × (s'.round_history ≡ s.round_history)
      × (s'.pushed ≡ s.pushed)

  -- The same, and no exposure was recorded.
  abbrev Held : AppState env → AppState env → Type 0
  Held s s' = Kept s s' × (s'.accountant ≡ s.accountant) × (s'.config ≡ s.config)

  check_batch_requirement-Held :
      (round batch : ℕ) (s : AppState env) → Held s (check_batch_requirement env round batch s).0
  unfolding check_batch_requirement
  check_batch_requirement-Held round batch s = ground arith

  inject_reference-Held : (o : Opened) (s : AppState env) → Held s (inject_reference env o s).0
  unfolding inject_reference fetch_and_inject_trusted_reference
  inject_reference-Held o s = ground arith

  inject_scores-Held :
      (o : Opened) (b : List ClientDelta) (s : AppState env) → Held s (inject_scores env o b s).0
  unfolding inject_scores fetch_and_inject_candidate_scores
  inject_scores-Held o b s = ground arith

  aggregate-Held : (b : List ClientDelta) (s : AppState env) → Held s (aggregate_batch env b s).0
  unfolding aggregate_batch
  aggregate-Held b s = ground arith

  save-Held : (round : ℕ) (w : List F32) (s : AppState env) → Held s (save env round w s).0
  unfolding save
  save-Held round w s = ground arith

  cost-Kept :
      (n m : ℕ) (ids : List Text) (s : AppState env)
      → Kept s (record_round_privacy_cost env n m ids s).0
  unfolding record_round_privacy_cost
  cost-Kept n m ids s = ground arith

  Held-trans : (s t u : AppState env) → Held s t → Held t u → Held s u
  Held-trans s t u h k =
      ((k.0.0 ∙ h.0.0, k.0.1 ∙ h.0.1, k.0.2 ∙ h.0.2, k.0.3 ∙ h.0.3), k.1 ∙ h.1, k.2 ∙ h.2)

  Held-refl : (s : AppState env) → Held s s
  Held-refl s = ((refl, refl, refl, refl), refl, refl)

  Held-and_then :
      {A B : Type 0} (s : AppState env) (m : Outcome env A) (f : A → AppState env → Outcome env B)
      → Held s m.0
      → ((a : A) (t : AppState env) → Held t (f a t).0)
      → Held s (and_then env m f).0
  Held-and_then s (t, ok a) f h k = Held-trans s t (f a t).0 h (k a t)
  Held-and_then s (t, err e) f h k = h

  consult_sidecar-Held :
      (o : Opened) (b : List ClientDelta) (s : AppState env) → Held s (consult_sidecar env o b s).0
  unfolding consult_sidecar
  consult_sidecar-Held o b s =
      Held-and_then s (inject_reference env o s) (λ _ t. inject_scores env o b t)
        (inject_reference-Held o s) (λ _ t. inject_scores-Held o b t)

  rounds-record_clients :
      (noise rate : F32) (ids : List Text) (a : RdpAccountant)
      → (record_clients env noise rate ids a).rounds ≡ a.rounds
  unfolding record_round_for_client
  rounds-record_clients noise rate [] a = refl
  rounds-record_clients noise rate (id ∷ ids) a =
      rounds-record_clients noise rate ids (record_round_for_client id noise rate a)

  -- One round of exposure at the configured noise, for the share of clients that was selected.
  abbrev pub Charged : Opened → AppState env → AppState env → Type 0
  Charged o s s' =
      s'.accountant.rounds
      ≡ s.accountant.rounds
        ++ (s.config.noise_multiplier, sample_rate env (length o.selected) (length o.active)) ∷ []

  cost-accountant :
      (n m : ℕ) (ids : List Text) (s : AppState env)
      → (record_round_privacy_cost env n m ids s).0.accountant
        ≡ record_clients env s.config.noise_multiplier
            (sample_rate env n m)
            ids
            (record_round s.config.noise_multiplier (sample_rate env n m) s.accountant)
  unfolding record_round_privacy_cost
  cost-accountant n m ids s = ground arith

  cost-Charged :
      (o : Opened) (ids : List Text) (s : AppState env)
      → Charged o s (record_round_privacy_cost env (length o.selected) (length o.active) ids s).0
  unfolding record_round
  cost-Charged o ids s =
      ap (λ a. a.rounds) (cost-accountant (length o.selected) (length o.active) ids s)
      ∙ rounds-record_clients s.config.noise_multiplier
          (sample_rate env (length o.selected) (length o.active)) ids
          (record_round s.config.noise_multiplier
            (sample_rate env (length o.selected) (length o.active)) s.accountant)

  -- How the second half ends.
  abbrev pub Ended : Opened → AppState env → Outcome env RoundSummary → Type 0
  Ended o s (s', ok summary) =
      (summary.round ≡ o.round)
      × (s'.round ≡ (o.round + 1) % 2 ^ 64)
      × (s'.current_buffer ≡ none)
      × Charged o s s'
  Ended o s (s', err e) = Kept s s'

  Ended-from :
      (o : Opened) (s t : AppState env) (r : Outcome env RoundSummary)
      → Held s t
      → Ended o t r
      → Ended o s r
  Ended-from o s t (s', ok summary) h (p, q, b, c) = (
    p,
    q,
    b,
    c
        ∙ ap₂
            (λ (a : RdpAccountant) (config : ResolvedConfig).
              a.rounds
              ++ (config.noise_multiplier, sample_rate env (length o.selected) (length o.active))
                ∷ [])
            h.1 h.2,
  )
  Ended-from o s t (s', err e) h k = (k.0 ∙ h.0.0, k.1 ∙ h.0.1, k.2 ∙ h.0.2, k.3 ∙ h.0.3)

  Ended-and_then :
      {A : Type 0} (o : Opened) (s : AppState env) (m : Outcome env A)
      (f : A → AppState env → Outcome env RoundSummary)
      → Held s m.0
      → ((a : A) (t : AppState env) → Ended o t (f a t))
      → Ended o s (and_then env m f)
  Ended-and_then o s (t, ok a) f h k = Ended-from o s t (f a t) h (k a t)
  Ended-and_then o s (t, err e) f h k = h.0

  -- The last step, after the charge.
  complete-Ended :
      (now : Option ℕ) (o : Opened) (summary : RoundSummary) (s : AppState env)
      (m : Outcome env (Unit {0}))
      → summary.round ≡ o.round
      → Kept s m.0
      → Charged o s m.0
      → Ended o s (and_then env m (λ _ t. complete env now summary t))
  unfolding complete
  complete-Ended now o summary s (t, ok u) e k c = (e, ap (λ r. (r + 1) % 2 ^ 64) e, refl, c)
  complete-Ended now o summary s (t, err why) e k c = k

  finish-Ended :
      (now : Option ℕ) (o : Opened) (reason : FlushReason) (n : ℕ) (b : List ClientDelta)
      (s : AppState env)
      → Ended o s (finish env now o reason n b s)
  unfolding finish
  finish-Ended now o reason n b s =
      let ids = map (λ d. d.client_id) b in
      Ended-and_then o s (consult_sidecar env o b s) _ (consult_sidecar-Held o b s) (λ _ t.
        Ended-and_then o t (aggregate_batch env b t) _ (aggregate-Held b t) (λ w t₁.
          Ended-and_then o t₁ (save env o.round w t₁) _ (save-Held o.round w t₁) (λ _ t₂.
            complete-Ended now o _ t₂
              (record_round_privacy_cost env (length o.selected) (length o.active) ids t₂) refl
              (cost-Kept (length o.selected) (length o.active) ids t₂) (cost-Charged o ids t₂))))

  admitted-Ended :
      (now : Option ℕ) (o : Opened) (reason : FlushReason) (n : ℕ) (s : AppState env)
      (r : Result ServerError (List ClientDelta))
      → Ended o s (elim r [ err e ↦ (s, err e) | ok batch ↦ finish env now o reason n batch s ])
  admitted-Ended now o reason n s (ok batch) = finish-Ended now o reason n batch s
  admitted-Ended now o reason n s (err e) = (refl, refl, refl, refl)

  -- A round ends in one of two ways. Completed, it has the number it was opened with, the counter is
  -- one past it as a u64, no buffer is open, and the experiment was charged exactly one round of
  -- exposure, at the share of the active clients that was selected. Failed, at whatever step, the
  -- counter, the buffer, the history and what was broadcast are as they were.
  pub close_round-Ended :
      (now : Option ℕ) (o : Opened) (flush : FlushResult) (s : AppState env)
      → Ended o s (close_round env now o flush s)
  unfolding close_round close_sorted
  close_round-Ended now o flush s =
      Ended-and_then o s (check_batch_requirement env o.round (length flush.deltas % 2 ^ 32) s) _
        (check_batch_requirement-Held o.round (length flush.deltas % 2 ^ 32) s)
        (λ _ t.
          admitted-Ended now o flush.reason (length flush.deltas) t
            (admit env t o.round (sorted_by_client flush.deltas)))
