-- ===== src/Models/Float.antt =====
-- A finite float64 as the exact number that it stands for: ± mantissa / 2 ^ scale. The values come
-- from decoded JSON, which has no infinities and no NaN, and the code only compares them with
-- whole numbers.
use native.Mathlib.Nat.{mul-lt-mul_of_pos_right, lt_of_mul-lt-mul_right, mul-le-mul_right, pow-suc}
use uruflow.Prelude.{
  zero, suc, ℕ, ◌*◌, ◌^◌, ◌≤◌, ◌<◌, ◌≡◌, Bool, true, false, arith, ltb, if◌then◌else◌,
}

pub record Float64 : Type 0 where
  pub negative : Bool
  pub mantissa : ℕ
  pub scale : ℕ

abbrev pub float_zero : Float64
float_zero = record { negative = false; mantissa = 0; scale = 0 }

-- `x > n` for a whole number `n`.
unfoldable pub above : Float64 → ℕ → Bool
above x n = if x.negative then false else ltb (n * 2 ^ x.scale) x.mantissa

-- x ≤ y, by signs and cross-multiplied magnitudes.
abbrev AtMostBy : Bool → Bool → ℕ → ℕ → Type 0
AtMostBy false false a b = a ≤ b
AtMostBy true true a b = b ≤ a
AtMostBy true false a b = Unit {0}
AtMostBy false true a b = (a ≡ 0) × (b ≡ 0)

abbrev pub AtMost : Float64 → Float64 → Type 0
AtMost x y = AtMostBy x.negative y.negative (x.mantissa * 2 ^ y.scale) (y.mantissa * 2 ^ x.scale)

scaled : (m m' p q n : ℕ) → 0 < p → 0 < q → m * q ≤ m' * p → n * p < m → n * q < m'
scaled m m' p q n hp hq h k = lt_of_mul-lt-mul_right p (omega (arith, mul-lt-mul_of_pos_right k hq))

-- What exceeds a bound exceeds every smaller one.
pub above_lower : (x : Float64) (n k : ℕ) → n ≤ k → above x k ≡ true → above x n ≡ true
unfolding above
above_lower x n k h e = ground (arith, mul-le-mul_right {m = n} {n = k} (2 ^ x.scale) h)

pow_pos : (s : ℕ) → 0 < 2 ^ s
pow_pos zero = omega arith
pow_pos (suc s) = omega (arith, pow-suc 2 s, pow_pos s)

magnitude_above : (m m' s s' n : ℕ) → m * 2 ^ s' ≤ m' * 2 ^ s → n * 2 ^ s < m → n * 2 ^ s' < m'
magnitude_above m m' s s' n = scaled m m' (2 ^ s) (2 ^ s') n (pow_pos s) (pow_pos s')

magnitude_zero : (m s n : ℕ) → m * 2 ^ s ≡ 0 → n < m → ⊥
magnitude_zero m s n h k = omega (arith, mul-lt-mul_of_pos_right {k = 2 ^ s} k (pow_pos s))

pub above-AtMost : (x y : Float64) (n : ℕ) → AtMost x y → above x n ≡ true → above y n ≡ true
unfolding above
above-AtMost x y n h e = ground (
  arith,
  magnitude_above x.mantissa y.mantissa x.scale y.scale n,
  magnitude_zero x.mantissa y.scale (n * 2 ^ x.scale),
)
