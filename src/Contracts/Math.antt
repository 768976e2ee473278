-- ===== src/Contracts/Math.antt =====
-- contracts/libraries/math/WadRayMath.sol and PercentageMath.sol: products and quotients of decimal
-- numbers with 18 digits (wad), 27 digits (ray) and 4 digits (percentages), rounded half up.
pub mod Bounds
pub mod Rounding
use lender.Common.{ℕ, ◌+◌, ◌-◌, ◌*◌, ◌/◌, ◌^◌, ◌||◌, leb, eqb, not, if◌then◌else◌}
use lender.Constants.{max_uint_amount}
use lender.Contracts.Checked.{add, mul, demand, ◌>>=◌, ◌>>◌}
use lender.Failure.{Result, ok}
use lender.Types.ProtocolError.{
  math_multiplication_overflow, math_division_by_zero, math_addition_overflow,
}

-- `WAD`
abbrev pub wad : ℕ
wad = 10 ^ 18

-- `RAY`
abbrev pub ray : ℕ
ray = 10 ^ 27

-- `WAD_RAY_RATIO`
abbrev pub wad_ray_ratio : ℕ
wad_ray_ratio = 10 ^ 9

-- `PERCENTAGE_FACTOR`
abbrev pub percentage_factor : ℕ
percentage_factor = 10 ^ 4

-- The body that `wadMul`, `rayMul` and `percentMul` share, with `one` for their unit.
abbrev pub mul_half_up : ℕ → ℕ → ℕ → Result ℕ
mul_half_up one a b = if eqb a 0 || eqb b 0 then ok 0 else do
  demand (leb a ((max_uint_amount - one / 2) / b)) math_multiplication_overflow
  product ← mul a b
  total ← add product (one / 2)
  ok (total / one)

-- The body that `wadDiv`, `rayDiv` and `percentDiv` share.
abbrev pub div_half_up : ℕ → ℕ → ℕ → Result ℕ
div_half_up one a b = do
  demand (not (eqb b 0)) math_division_by_zero
  demand (leb a ((max_uint_amount - b / 2) / one)) math_multiplication_overflow
  product ← mul a one
  total ← add product (b / 2)
  ok (total / b)

-- `wadMul`
unfoldable pub wad_mul : ℕ → ℕ → Result ℕ
wad_mul = mul_half_up wad

-- `wadDiv`
unfoldable pub wad_div : ℕ → ℕ → Result ℕ
wad_div = div_half_up wad

-- `rayMul`
unfoldable pub ray_mul : ℕ → ℕ → Result ℕ
ray_mul = mul_half_up ray

-- `rayDiv`
unfoldable pub ray_div : ℕ → ℕ → Result ℕ
ray_div = div_half_up ray

-- `percentMul`
unfoldable pub percent_mul : ℕ → ℕ → Result ℕ
percent_mul = mul_half_up percentage_factor

-- `percentDiv`
unfoldable pub percent_div : ℕ → ℕ → Result ℕ
percent_div = div_half_up percentage_factor

-- `rayToWad`
unfoldable pub ray_to_wad : ℕ → Result ℕ
ray_to_wad a = do
  result ← add (wad_ray_ratio / 2) a
  demand (leb (wad_ray_ratio / 2) result) math_addition_overflow
  ok (result / wad_ray_ratio)

-- `wadToRay`
unfoldable pub wad_to_ray : ℕ → Result ℕ
wad_to_ray a = do
  result ← mul a wad_ray_ratio
  demand (eqb (result / wad_ray_ratio) a) math_multiplication_overflow
  ok result
