-- ===== src/Reference/Math.antt =====
-- test/helpers/utils/math.ts on natural numbers. The tests configure bignumber.js with no decimal
-- places, rounded down, so a quotient is the whole quotient. A quotient by zero is infinite or not a
-- number there, and `none` here.
use lender.Common.{ℕ, ◌+◌, ◌*◌, ◌/◌, eqb, if◌then◌else◌, Option, none, some}
use lender.Constants.{
  wad, half_wad, ray, half_ray, wad_ray_ratio, half_percentage, percentage_factor,
}

-- `a.div(b)`
abbrev pub div : ℕ → ℕ → Option ℕ
div a b = if eqb b 0 then none else some (a / b)

-- `wadMul`
unfoldable pub wad_mul : ℕ → ℕ → ℕ
wad_mul a b = (half_wad + a * b) / wad

-- `wadDiv`
unfoldable pub wad_div : ℕ → ℕ → Option ℕ
wad_div a b = let half = b / 2 in div (half + a * wad) b

-- `rayMul`
unfoldable pub ray_mul : ℕ → ℕ → ℕ
ray_mul a b = (half_ray + a * b) / ray

-- `rayDiv`
unfoldable pub ray_div : ℕ → ℕ → Option ℕ
ray_div a b = let half = b / 2 in div (half + a * ray) b

-- `rayToWad`
unfoldable pub ray_to_wad : ℕ → ℕ
ray_to_wad a = let half_ratio = wad_ray_ratio / 2 in (half_ratio + a) / wad_ray_ratio

-- `wadToRay`
unfoldable pub wad_to_ray : ℕ → ℕ
wad_to_ray a = a * wad_ray_ratio

-- `percentMul`
unfoldable pub percent_mul : ℕ → ℕ → ℕ
percent_mul a b = (half_percentage + a * b) / percentage_factor

-- `percentDiv`
unfoldable pub percent_div : ℕ → ℕ → Option ℕ
percent_div a b = let half = b / 2 in div (half + a * percentage_factor) b
