-- ===== src/Float.antt =====
-- `f32` and `f64` values as their bit patterns. Classification and comparison are those of
-- IEEE 754; the arithmetic of the hardware is a parameter.
use conflux_fl.Base.{
  ℕ, ◌/◌, ◌%◌, ◌^◌, Bool, true, false, not, ◌&&◌, ◌||◌, leb, ◌==◌, List, if◌then◌else◌,
}

-- A 32-bit pattern: sign, 8 bits of exponent, 23 of mantissa.
abbrev pub F32 : Type 0
F32 = ℕ

-- A 64-bit pattern.
abbrev pub F64 : Type 0
F64 = ℕ

abbrev pub exponent : F32 → ℕ
exponent x = x / 2 ^ 23 % 2 ^ 8

abbrev pub mantissa : F32 → ℕ
mantissa x = x % 2 ^ 23

abbrev pub magnitude : F32 → ℕ
magnitude x = x % 2 ^ 31

abbrev pub is_negative : F32 → Bool
is_negative x = x / 2 ^ 31 % 2 == 1

-- `f32::is_finite`: the exponent is not all ones.
unfoldable pub is_finite : F32 → Bool
is_finite x = not (exponent x == 255)

-- `f32::is_nan`
unfoldable pub is_nan : F32 → Bool
is_nan x = exponent x == 255 && not (mantissa x == 0)

-- The order of two patterns that are no NaN: both zeros are equal.
unfoldable pub ordered_le : F32 → F32 → Bool
ordered_le x y =
    if is_negative x
    then (if is_negative y then leb (magnitude y) (magnitude x) else true)
    else (if is_negative y
        then magnitude x == 0 && magnitude y == 0
        else leb (magnitude x) (magnitude y))

-- `x <= y`: false when either side is NaN.
unfoldable pub float_le : F32 → F32 → Bool
unfolding is_nan ordered_le
float_le x y = if is_nan x || is_nan y then false else ordered_le x y

-- The canonical quiet NaN, `f32::NAN`.
abbrev pub nan : F32
nan = 0x7fc00000

-- `0.0`, `1.0`
abbrev pub zero_f32 : F32
zero_f32 = 0

abbrev pub one_f32 : F32
one_f32 = 0x3f800000

-- What the hardware and the standard library compute.
pub record Arithmetic : Type 0 where
  pub add : F32 → F32 → F32
  pub sub : F32 → F32 → F32
  pub mul : F32 → F32 → F32
  pub div : F32 → F32 → F32
  pub sqrt : F32 → F32
  -- `iter().sum()`
  pub sum : List F32 → F32
  -- `n as f32`
  pub of_nat : ℕ → F32
  -- `x.floor() as u64`, which saturates
  pub floor_nat : F32 → ℕ

-- The same for `f64`, with the conversions between the two and to integers.
pub record Arithmetic64 : Type 0 where
  pub add : F64 → F64 → F64
  pub sub : F64 → F64 → F64
  pub mul : F64 → F64 → F64
  pub div : F64 → F64 → F64
  -- `iter().sum()`
  pub sum : List F64 → F64
  pub ln : F64 → F64
  pub exp : F64 → F64
  pub sqrt : F64 → F64
  pub fract : F64 → F64
  pub minimum : F64 → F64 → F64
  pub maximum : F64 → F64 → F64
  pub less : F64 → F64 → Bool
  pub equal : F64 → F64 → Bool
  pub finite : F64 → Bool
  -- `x as f64` of an `f32` and of an integer, and `x as u32`
  pub of_f32 : F32 → F64
  pub of_nat : ℕ → F64
  pub to_nat : F64 → ℕ
  -- `x as f32`
  pub to_f32 : F64 → F32

-- `0.0`, `1.0`, `-1.0` of `f64`
abbrev pub zero_f64 : F64
zero_f64 = 0

abbrev pub one_f64 : F64
one_f64 = 0x3ff0000000000000

abbrev pub minus_one_f64 : F64
minus_one_f64 = 0xbff0000000000000
