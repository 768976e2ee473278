-- ===== src/Contracts/Math/Rounding.antt =====
-- The results of Math are the nearest ones, a tie going up, and conversions that lose nothing.
use lender.Common.{ℕ, zero, suc, ◌+◌, ◌*◌, ◌/◌, ◌≤◌, ◌<◌, ◌≡◌, arith}
use lender.Constants.{max_uint_amount}
use lender.Contracts.Checked.{add, mul}
use lender.Contracts.Math.{
  mul_half_up, div_half_up, ray, ray_mul, ray_div, wad_ray_ratio, ray_to_wad, wad_to_ray,
}
use lender.Contracts.Math.Bounds.{mul_half_up_lem, div_half_up_lem}
use lender.Failure.{ok}
use lender.Failure.Laws.{err≢ok}

quotient_bounds : (x d : ℕ) → 0 < d → (x / d * d ≤ x) × (x < x / d * d + d) × (x / d ≤ x)
quotient_bounds x d h = (grind arith, grind arith, grind arith)

mul_half_up_nearest :
    (one a b v : ℕ)
    → 0 < one
    → one ≤ max_uint_amount
    → mul_half_up one a b ≡ ok v
    → (v * one ≤ a * b + one / 2) × (a * b + one / 2 < v * one + one) × (v ≤ max_uint_amount)
mul_half_up_nearest one a b v h k e =
    ground (arith, mul_half_up_lem one a b, quotient_bounds (a * b + one / 2) one)

pub ray_mul_nearest :
    (a b v : ℕ)
    → ray_mul a b ≡ ok v
    → (v * ray ≤ a * b + ray / 2) × (a * b < v * ray + ray / 2) × (v ≤ max_uint_amount)
unfolding ray_mul
ray_mul_nearest a b v e =
    omega (arith, mul_half_up_nearest ray a b v (ground arith) (ground arith) e)

-- A quotient that is returned had a divisor.
div_half_up_nearest :
    (one a b v : ℕ)
    → 0 < one
    → b ≤ max_uint_amount
    → div_half_up one a b ≡ ok v
    → (v * b ≤ a * one + b / 2) × (a * one + b / 2 < v * b + b) × (v ≤ max_uint_amount) × (0 < b)
div_half_up_nearest one a zero v h k e = absurd (err≢ok e)
div_half_up_nearest one a (suc b) v h k e =
    ground (arith, div_half_up_lem one a (suc b), quotient_bounds (a * one + suc b / 2) (suc b))

pub ray_div_nearest :
    (a b v : ℕ)
    → b ≤ max_uint_amount
    → ray_div a b ≡ ok v
    → (v * b ≤ a * ray + b / 2) × (a * ray + b / 2 < v * b + b) × (v ≤ max_uint_amount) × (0 < b)
unfolding ray_div
ray_div_nearest a b v h e = div_half_up_nearest ray a b v (ground arith) h e

pub wad_to_ray_to_wad :
    (a v : ℕ) → a < max_uint_amount / wad_ray_ratio → wad_to_ray a ≡ ok v → ray_to_wad v ≡ ok a
unfolding wad_to_ray ray_to_wad add mul
wad_to_ray_to_wad a v h e = ground arith

-- An amount that is scaled down by an index of 256 bits and up again by the same index differs from
-- the amount by at most half of one and of the index in rays.
pub scaled_round_trip :
    (amount index scaled back : ℕ)
    → index ≤ max_uint_amount
    → ray_div amount index ≡ ok scaled
    → ray_mul scaled index ≡ ok back
    → (2 * ray * back ≤ 2 * ray * amount + index + ray)
      × (2 * ray * amount ≤ 2 * ray * back + index + ray)
scaled_round_trip amount index scaled back h d m =
    omega (arith, ray_div_nearest amount index scaled h d, ray_mul_nearest scaled index back m)
