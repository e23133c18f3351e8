-- ===== src/Proto/Codec.antt =====
-- crates/conflux-proto/src/lib.rs, `encode_weights` and `decode_weights`.
use conflux_fl.Base.{
  ℕ, ◌+◌, ◌*◌, ◌/◌, ◌%◌, ◌^◌, ◌<◌, ◌≡◌, ◌≢◌, ◌⊎◌, inl, inr, Bool-cases, refl, List, [], ◌∷◌, ◌++◌,
  arith, length, All, Bytes, IsBytes, Result, ok, err, ◌==◌, if◌then◌else◌,
}
use conflux_fl.Float.{F32}

pub data WeightsCodecError : Type 0 where
  malformed : ℕ → WeightsCodecError

-- `f32::to_le_bytes`
abbrev pub to_le_bytes : F32 → Bytes
to_le_bytes w = w % 256 ∷ w / 256 % 256 ∷ w / 65536 % 256 ∷ w / 16777216 % 256 ∷ []

-- `f32::from_le_bytes`
abbrev pub from_le_bytes : ℕ → ℕ → ℕ → ℕ → F32
from_le_bytes a b c d = a + 256 * b + 65536 * c + 16777216 * d

unfoldable pub encode_weights : List F32 → Bytes
encode_weights [] = []
encode_weights (w ∷ ws) = to_le_bytes w ++ encode_weights ws

-- `as_chunks::<4>().0`, each chunk read as a weight.
unfoldable pub read_chunks : Bytes → List F32
read_chunks (a ∷ b ∷ c ∷ d ∷ rest) = from_le_bytes a b c d ∷ read_chunks rest
read_chunks rest = []

unfoldable pub decode_weights : Bytes → Result WeightsCodecError (List F32)
unfolding read_chunks
decode_weights bytes =
    if length bytes % 4 == 0 then ok (read_chunks bytes) else err (malformed (length bytes))

abbrev pub AreF32 : List F32 → Type 0
AreF32 = All (λ w. w < 2 ^ 32)

-- Four bytes per weight, with nothing around them.
pub length-encode_weights : (ws : List F32) → length (encode_weights ws) ≡ 4 * length ws
unfolding encode_weights
length-encode_weights [] = omega arith
length-encode_weights (w ∷ ws) = omega (arith, length-encode_weights ws)

read_chunks-encode_weights : (ws : List F32) → AreF32 ws → read_chunks (encode_weights ws) ≡ ws
unfolding encode_weights read_chunks
read_chunks-encode_weights [] h = refl
read_chunks-encode_weights (w ∷ ws) h = ground (arith, read_chunks-encode_weights ws h.1)

-- Every vector of weights decodes from its own encoding, bit patterns of NaN and infinities
-- included.
pub decode_weights-encode_weights :
    (ws : List F32) → AreF32 ws → decode_weights (encode_weights ws) ≡ ok ws
unfolding decode_weights
decode_weights-encode_weights ws h =
    ground (arith, length-encode_weights ws, read_chunks-encode_weights ws h)

encode_weights-read_chunks :
    (bytes : Bytes)
    → IsBytes bytes
    → length bytes % 4 ≡ 0
    → encode_weights (read_chunks bytes) ≡ bytes
unfolding encode_weights read_chunks
encode_weights-read_chunks [] h e = refl
encode_weights-read_chunks (a ∷ []) h e = absurd (omega arith)
encode_weights-read_chunks (a ∷ b ∷ []) h e = absurd (omega arith)
encode_weights-read_chunks (a ∷ b ∷ c ∷ []) h e = absurd (omega arith)
encode_weights-read_chunks (a ∷ b ∷ c ∷ d ∷ rest) h e =
    ground (arith, encode_weights-read_chunks rest h.1.1.1.1)

-- Decoding fails exactly on a length that is no multiple of 4, and what it returns encodes back to
-- the very bytes that were given.
pub encode_weights-decode_weights :
    (bytes : Bytes)
    → IsBytes bytes
    → ((length bytes % 4 ≡ 0)
        × ((ws : List F32) × (decode_weights bytes ≡ ok ws) × (encode_weights ws ≡ bytes)))
      ⊎ ((length bytes % 4 ≢ 0) × (decode_weights bytes ≡ err (malformed (length bytes))))
unfolding decode_weights
encode_weights-decode_weights bytes h = elim (Bool-cases (length bytes % 4 == 0)) [
  | inl e ↦
      let whole : length bytes % 4 ≡ 0 = ground arith in
      inl (whole, (read_chunks bytes, rw e, encode_weights-read_chunks bytes h whole))
  | inr e ↦ inr (ground arith, rw e)
]
