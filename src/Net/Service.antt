-- ===== src/Net/Service.antt =====
-- crates/conflux-net/src/service.rs: `submit_delta`, which gathers a client's stream under the byte
-- bound and hands it to the dispatcher.
use conflux_fl.Base.{
  ℕ, ◌+◌, ◌-◌, ◌^◌, ◌≤◌, ◌<◌, min, ◌≡◌, ◌⊎◌, inl, inr, refl, ap, ◌∙◌, Bool-cases, Option, none,
  some, List, [], ◌∷◌, ◌++◌, map, arith, length, Result, ok, err, map_err, ltb, if◌then◌else◌, Text,
}
use mathlib.Core.List.{append-nil, append_assoc}
use conflux_fl.Proto.{DeltaChunk, SubmitAck}
use conflux_fl.Net.{DispatchError, Status, update_too_large, to_status, resource_exhausted}

-- What `stream.message().await` gives, up to the end of the stream.
abbrev pub Incoming : Type 0
Incoming = List (Result Status DeltaChunk)

abbrev pub option_length : Option (List ℕ) → ℕ
option_length none = 0
option_length (some cv) = length cv

abbrev pub chunk_bytes : DeltaChunk → ℕ
chunk_bytes c = length c.payload + option_length c.control_variate

-- `u64::saturating_add`
abbrev pub saturating_add : ℕ → ℕ → ℕ
saturating_add a b = min (a + b) (2 ^ 64 - 1)

-- The loop: the bytes received and the chunks gathered so far.
unfoldable pub gather : ℕ → ℕ → List DeltaChunk → Incoming → Result Status (List DeltaChunk)
gather max_update_bytes received_bytes chunks [] = ok chunks
gather max_update_bytes received_bytes chunks (err status ∷ stream) = err status
gather max_update_bytes received_bytes chunks (ok chunk ∷ stream) =
    let received = saturating_add received_bytes (chunk_bytes chunk) in
    let rest = gather max_update_bytes received (chunks ++ chunk ∷ []) stream in
    if ltb max_update_bytes received
    then err (to_status (update_too_large chunk.client_id max_update_bytes received))
    else rest

-- `submit_delta` over a dispatcher whose own call takes a state of type S.
module _ {S : Type 0} (dispatch : List DeltaChunk → S → S × Result DispatchError SubmitAck) where
  unfoldable pub submit_delta : ℕ → Incoming → S → S × Result Status SubmitAck
  unfolding gather
  submit_delta max_update_bytes stream s = elim (gather max_update_bytes 0 [] stream) [
    | err status ↦ (s, err status)
    | ok chunks ↦ (let (s', answer) = dispatch chunks s in (s', map_err to_status answer))
  ]

-- Every byte that the client controls.
abbrev pub total_bytes : List DeltaChunk → ℕ
total_bytes [] = 0
total_bytes (c ∷ cs) = chunk_bytes c + total_bytes cs

-- What comes of gathering chunks whose transport does not fail.
abbrev pub Gathered :
    ℕ → ℕ → List DeltaChunk → List DeltaChunk → Result Status (List DeltaChunk) → Type 0
Gathered limit received held chunks result =
    ((received + total_bytes chunks ≤ limit) × (result ≡ ok (held ++ chunks)))
    ⊎ ((limit < received + total_bytes chunks)
        × ((status : Status) × (result ≡ err status) × (status.code ≡ resource_exhausted)))

too_large-code :
    (id : Text) (limit received : ℕ)
    → (to_status (update_too_large id limit received)).code ≡ resource_exhausted
unfolding to_status
too_large-code id limit received = refl

-- What the next chunk does to the gathering.
gather_step :
    (limit received : ℕ) (held : List DeltaChunk) (c : DeltaChunk) (stream : Incoming)
    → limit < 2 ^ 64 - 1
    → ((received + chunk_bytes c ≤ limit)
        × (gather limit received held (ok c ∷ stream)
            ≡ gather limit (received + chunk_bytes c) (held ++ c ∷ []) stream))
      ⊎ ((limit < received + chunk_bytes c)
          × ((status : Status) × (gather limit received held (ok c ∷ stream) ≡ err status)
              × (status.code ≡ resource_exhausted)))
unfolding gather
gather_step limit received held c stream fits =
    let sum = saturating_add received (chunk_bytes c) in
    elim (Bool-cases (ltb limit sum)) [
      | inl e ↦ inr (
        ground arith,
        (
          to_status (update_too_large c.client_id limit sum),
          rw e refl,
          too_large-code c.client_id limit sum,
        ),
      )
      | inr e ↦
          let small : received + chunk_bytes c ≤ limit = ground arith in
          let same : sum ≡ received + chunk_bytes c = omega arith in inl (small, rw (e, same) refl)
    ]

gather_nil : (limit received : ℕ) (held : List DeltaChunk) → gather limit received held [] ≡ ok held
unfolding gather
gather_nil limit received held = refl

Gathered-cons :
    (limit received : ℕ) (held : List DeltaChunk) (c : DeltaChunk) (cs : List DeltaChunk)
    (result : Result Status (List DeltaChunk))
    → Gathered limit (received + chunk_bytes c) (held ++ c ∷ []) cs result
    → Gathered limit received held (c ∷ cs) result
Gathered-cons limit received held c cs result (inl (fits, eq)) =
    inl (omega arith, eq ∙ ap ok (append_assoc held (c ∷ []) cs))
Gathered-cons limit received held c cs result (inr (big, failed)) = inr (omega arith, failed)

gather_lem :
    (limit received : ℕ) (held chunks : List DeltaChunk)
    → limit < 2 ^ 64 - 1
    → received ≤ limit
    → Gathered limit received held chunks (gather limit received held (map ok chunks))
gather_lem limit received held [] fits le =
    inl (omega arith, rw (append-nil held) (gather_nil limit received held))
gather_lem limit received held (c ∷ cs) fits le =
    elim (gather_step limit received held c (map ok cs) fits) [
      | inl (small, next) ↦ rw next (
          Gathered-cons limit received held c cs _
            (gather_lem limit (received + chunk_bytes c) (held ++ c ∷ []) cs fits small))
      | inr (big, failed) ↦ inr (omega arith, failed)
    ]

module _ {S : Type 0} (dispatch : List DeltaChunk → S → S × Result DispatchError SubmitAck) where
  -- The answer of the dispatcher, as the service passes it on.
  abbrev pub answered : List DeltaChunk → S → S × Result Status SubmitAck
  answered chunks s = ((dispatch chunks s).0, map_err to_status (dispatch chunks s).1)

  -- Over a stream that the transport delivers whole, and below a bound that is not the largest u64:
  -- an update whose bytes, those of its control variate included, are within the bound reaches the
  -- dispatcher complete and in order; a larger one is refused with `resource_exhausted`, and the
  -- dispatcher is never called.
  pub submit_delta-gather :
      (limit : ℕ) (chunks : List DeltaChunk) (s : S)
      → limit < 2 ^ 64 - 1
      → ((total_bytes chunks ≤ limit)
          × (submit_delta dispatch limit (map ok chunks) s ≡ answered chunks s))
        ⊎ ((limit < total_bytes chunks)
            × ((status : Status) × (submit_delta dispatch limit (map ok chunks) s ≡ (s, err status))
                × (status.code ≡ resource_exhausted)))
  unfolding submit_delta
  submit_delta-gather limit chunks s fits = elim (gather_lem limit 0 [] chunks fits (omega arith)) [
    | inl (small, eq) ↦ inl (omega (arith, small), rw (submit_delta, eq) refl)
    | inr (big, (status, eq, code)) ↦
        inr (omega (arith, big), (status, rw (submit_delta, eq) refl, code))
  ]
