-- ===== src/Server/Dispatcher/Chunks.antt =====
-- crates/conflux-server/src/dispatcher.rs, `submit_delta`: an update that a client cuts into chunks
-- arrives as it was.
use conflux_fl.Base.{
  ℕ, suc, ◌<◌, ◌≡◌, refl, sym, ap, ◌∙◌, Option, none, some, List, [], ◌∷◌, ◌++◌, map, arith, Mem,
  Perm, Nodup, Bytes, inl, inr, le→leb, Result-cases, text, ◌↔◌, Text, Result, ok, err,
}
use conflux_fl.Net.{DispatchError, other}
use mathlib.Core.List.{
  mem-cons, mem-cons_self, not-mem-nil, Nodup-cons, Nodup-nil, append-nil, append_assoc,
}
use mathlib.Core.List.Perm
use mathlib.Core.Logic.Or
use mathlib.Core.HLevel.{⊥_prop}
use conflux_fl.Base.Sort.{sort_by, IsSorted, sort_by_perm-eq, sort_by_sorted}
use conflux_fl.Float.{F32}
use conflux_fl.Proto.{ClientDelta, DeltaChunk, SubmitAck}
use conflux_fl.Buffer.{RoundBuffer, push}
use conflux_fl.Server.Dispatcher.{
  reassemble, delta_of, chunk_le, extend, accepted_ack, deliver, submit_delta,
}
use conflux_fl.Server.State.{Environment, AppState}

-- A piece of the weights and of the control variate.
abbrev pub Piece : Type 0
Piece = Bytes × Option Bytes

-- The update cut into pieces and numbered, every chunk with the update's own header.
abbrev pub chunks_from : ClientDelta → ℕ → List Piece → List DeltaChunk
chunks_from d i [] = []
chunks_from d i ((payload, variate) ∷ pieces) =
    record {
      client_id = d.client_id;
      round = d.round;
      chunk_index = i;
      payload = payload;
      num_samples = d.num_samples;
      local_steps = d.local_steps;
      local_loss = d.local_loss;
      control_variate = variate;
    }
    ∷ chunks_from d (suc i) pieces

-- The pieces put together again.
abbrev pub whole_weights : List Piece → Bytes
whole_weights [] = []
whole_weights ((payload, variate) ∷ pieces) = payload ++ whole_weights pieces

abbrev pub whole_variate : Option Bytes → List Piece → Option Bytes
whole_variate held [] = held
whole_variate held ((payload, variate) ∷ pieces) = whole_variate (extend held variate) pieces

chunks-IsSorted :
    (d : ClientDelta) (i : ℕ) (ps : List Piece) → IsSorted chunk_le (chunks_from d i ps)
chunks-IsSorted d i [] = tt
chunks-IsSorted d i (p ∷ []) = tt
chunks-IsSorted d i (p ∷ q ∷ ps) =
    (le→leb i (suc i) (omega arith), chunks-IsSorted d (suc i) (q ∷ ps))

index-bound :
    (d : ClientDelta) (i j : ℕ) (ps : List Piece)
    → j < i
    → Mem j (map (λ c. c.chunk_index) (chunks_from d i ps))
    → ⊥
index-bound d i j [] lt m = not-mem-nil m
index-bound d i j (p ∷ ps) lt m =
    Or.elim ⊥_prop (mem-cons.0 m) (λ e. omega (arith, e))
      (λ t. index-bound d (suc i) j ps (omega arith) t)

indices-Nodup :
    (d : ClientDelta) (i : ℕ) (ps : List Piece)
    → Nodup (map (λ c. c.chunk_index) (chunks_from d i ps))
indices-Nodup d i [] = Nodup-nil
indices-Nodup d i (p ∷ ps) =
    Nodup-cons.1 ((λ m. index-bound d (suc i) i ps (omega arith) m), indices-Nodup d (suc i) ps)

DeltaChunk-IsSet : IsSet DeltaChunk
DeltaChunk-IsSet = hlevel

sort_by-chunks :
    (d : ClientDelta) (ps : List Piece) (l : List DeltaChunk)
    → Perm (chunks_from d 0 ps) l
    → sort_by chunk_le l ≡ chunks_from d 0 ps
sort_by-chunks d ps l p =
    sym (
      sort_by_perm-eq chunk_le (λ a b. ground arith) (λ a b c h k. ground arith)
        (λ c. c.chunk_index) (λ a b h k. ground arith) DeltaChunk-IsSet (chunks_from d 0 ps) l
        (indices-Nodup d 0 ps) p)
    ∙ sort_by_sorted chunk_le (chunks_from d 0 ps) (chunks-IsSorted d 0 ps)

reassemble-chunks :
    (d : ClientDelta) (i : ℕ) (weights : Bytes) (held : Option Bytes) (ps : List Piece)
    → reassemble weights held (chunks_from d i ps)
      ≡ (weights ++ whole_weights ps, whole_variate held ps)
unfolding reassemble
reassemble-chunks d i weights held [] = ap (λ w. (w, held)) (sym (append-nil weights))
reassemble-chunks d i weights held ((payload, variate) ∷ ps) =
    reassemble-chunks d (suc i) (weights ++ payload) (extend held variate) ps
    ∙ ap (λ w. (w, whole_variate (extend held variate) ps))
        (append_assoc weights payload (whole_weights ps))

-- What every chunk repeats.
abbrev pub Header : Type 0
Header = Text × ℕ × ℕ × Option ℕ × Option F32

abbrev pub chunk_header : DeltaChunk → Header
chunk_header c = (c.client_id, c.round, c.num_samples, c.local_steps, c.local_loss)

abbrev pub delta_header : ClientDelta → Header
delta_header d = (d.client_id, d.round, d.num_samples, d.local_steps, d.local_loss)

Header-IsSet : IsSet Header
Header-IsSet = hlevel

header-chunks :
    (d : ClientDelta) (i : ℕ) (c : DeltaChunk) (ps : List Piece)
    → Mem c (chunks_from d i ps)
    → chunk_header c ≡ delta_header d
header-chunks d i c [] m = absurd (not-mem-nil m)
header-chunks d i c (p ∷ ps) m =
    Or.elim (Header-IsSet (chunk_header c) (delta_header d)) (mem-cons.0 m) (λ e. ap chunk_header e)
      (λ t. header-chunks d (suc i) c ps t)

-- Cutting and reassembling gives the update back, in whatever order the chunks arrive.
pub delta_of-chunks :
    (d : ClientDelta) (ps : List Piece) (first : DeltaChunk) (rest : List DeltaChunk)
    → Perm (chunks_from d 0 ps) (first ∷ rest)
    → whole_weights ps ≡ d.weights
    → whole_variate none ps ≡ d.control_variate
    → delta_of first (first ∷ rest) ≡ d
unfolding delta_of
delta_of-chunks d ps first rest p weights variate =
    let same : sort_by chunk_le (first ∷ rest) ≡ chunks_from d 0 ps =
      sort_by-chunks d ps (first ∷ rest) p in
    let whole = reassemble-chunks d 0 [] none ps in
    let header = header-chunks d 0 first ps ((Perm.mem_iff p).1 mem-cons_self) in
    rw (same, whole, weights, variate)
      (ap
        (λ h. record {
          client_id = h.0;
          round = h.1;
          weights = d.weights;
          num_samples = h.2;
          local_steps = h.3;
          local_loss = h.4;
          control_variate = d.control_variate;
        })
        header)

module _ (env : Environment) where
  open_or :
      List DeltaChunk
      → DeltaChunk
      → AppState env
      → Option RoundBuffer
      → AppState env × Result DispatchError SubmitAck
  open_or chunks first s none =
      (s, err (other (text "no round is currently accepting submissions")))
  open_or chunks first s (some b) = deliver env b (delta_of first chunks) s

  deliver-push :
      (b : RoundBuffer) (d : ClientDelta) (s : AppState env)
      → ((deliver env b d s).0.current_buffer ≡ some (push b d).0)
        × (((push b d).1 ≡ ok tt) ↔ ((ack : SubmitAck) × ((deliver env b d s).1 ≡ ok ack)))
  unfolding deliver
  deliver-push b d s = elim (Result-cases (push b d).1) [
    | inl (u, e) ↦ (refl, ((λ h. (accepted_ack env d, rw (deliver, e) refl)), λ h. e))
    | inr (why, e) ↦ (refl, ((λ h. absurd (cc)), λ h. absurd (ground (arith, h.1))))
  ]

  submit_delta_open :
      (first : DeltaChunk) (rest : List DeltaChunk) (s : AppState env) (b : RoundBuffer)
      (d : ClientDelta)
      → s.current_buffer ≡ some b
      → delta_of first (first ∷ rest) ≡ d
      → ((submit_delta env (first ∷ rest) s).0.current_buffer ≡ some (push b d).0)
        × (((push b d).1 ≡ ok tt)
            ↔ ((ack : SubmitAck) × ((submit_delta env (first ∷ rest) s).1 ≡ ok ack)))
  unfolding submit_delta open_or
  submit_delta_open first rest s b d opened same =
      let delivered : submit_delta env (first ∷ rest) s ≡ deliver env b d s =
        ap (open_or (first ∷ rest) first s) opened ∙ ap (λ x. deliver env b x s) same in
      rw delivered (deliver-push b d s)

  -- An update that is cut into pieces, with its header on every chunk, reaches the open buffer exactly
  -- as it was, in whatever order the chunks arrive and whichever is the first to; and the client is
  -- told `accepted` exactly when the buffer took it.
  pub submit_delta-chunks :
      (d : ClientDelta) (ps : List Piece) (first : DeltaChunk) (rest : List DeltaChunk)
      (s : AppState env) (b : RoundBuffer)
      → Perm (chunks_from d 0 ps) (first ∷ rest)
      → whole_weights ps ≡ d.weights
      → whole_variate none ps ≡ d.control_variate
      → s.current_buffer ≡ some b
      → ((submit_delta env (first ∷ rest) s).0.current_buffer ≡ some (push b d).0)
        × (((push b d).1 ≡ ok tt)
            ↔ ((ack : SubmitAck) × ((submit_delta env (first ∷ rest) s).1 ≡ ok ack)))
  submit_delta-chunks d ps first rest s b p weights variate opened =
      submit_delta_open first rest s b d opened (delta_of-chunks d ps first rest p weights variate)
