-- ===== src/Floats.antt =====
-- What the flight software does with a `float` or a `double`: literals, two comparisons, products and
-- NaN. The type is a parameter, since floating-point arithmetic is the machine's.
use flight_software.Base.{ℕ, ◌<◌, ◌≡◌, Bool, false}

pub record FloatOps (Float : Type 0) : Type 0 where
  pub of_ℕ : ℕ → Float
  pub lt : Float → Float → Bool
  pub le : Float → Float → Bool
  pub mul : Float → Float → Float
  -- A `double` rounded to a `float`.
  pub to_float : Float → Float
  pub nan : Float

-- IEEE 754: NaN is not below anything.
pub record NanLaws (Float : Type 0) ⦃o : FloatOps Float⦄ : Type 0 where
  pub nan-lt : (x : Float) → o.lt o.nan x ≡ false

-- A `float`'s arithmetic and its casts to `unsigned char`, `unsigned short` and `int`. `decimal m n`
-- is the literal m / 10 ^ n. An `int` is a sign, set below 0, and a magnitude.
pub record FloatArith (Float : Type 0) : Type 0 where
  pub decimal : ℕ → ℕ → Float
  pub add : Float → Float → Float
  pub sub : Float → Float → Float
  pub times : Float → Float → Float
  pub div : Float → Float → Float
  pub neg : Float → Float
  pub less : Float → Float → Bool
  pub at_least : Float → Float → Bool
  pub not_a_number : Float
  pub to_u8 : Float → ℕ
  pub to_u16 : Float → ℕ
  pub to_int : Float → Bool × ℕ

-- The casts give values of their types.
pub record CastLaws (Float : Type 0) ⦃o : FloatArith Float⦄ : Type 0 where
  pub to_u8-lt : (x : Float) → o.to_u8 x < 256
  pub to_u16-lt : (x : Float) → o.to_u16 x < 65536
