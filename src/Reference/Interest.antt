-- ===== src/Reference/Interest.antt =====
-- The interest functions of test/helpers/utils/calculations.ts, on natural numbers: `none` where the
-- source leaves them, at a negative difference or a division by zero.
use lender.Common.{ℕ, ◌+◌, ◌-◌, ◌*◌, ◌/◌, ltb, leb, eqb, if◌then◌else◌, Option, none, some}
use lender.Constants.{ray, one_year}
use lender.Reference.Math.{ray_mul}

-- Arithmetic on a value that has left the natural numbers stays outside.
infixl 5 ◌>>=◌
abbrev pub ◌>>=◌ {ℓ κ} : {V : Type ℓ} {W : Type κ} → Option V → (V → Option W) → Option W
none >>= rest = none
some value >>= rest = rest value

-- `a.minus(b)`
abbrev pub minus : ℕ → ℕ → Option ℕ
minus a b = if leb b a then some (a - b) else none

-- `calcLinearInterest`
unfoldable pub calc_linear_interest : ℕ → ℕ → ℕ → Option ℕ
calc_linear_interest rate current_timestamp last_update_timestamp = do
  time_difference ← minus current_timestamp last_update_timestamp
  some (rate * time_difference / one_year + ray)

-- `calcCompoundedInterest` once the time difference is known not to be zero
unfoldable pub compound : ℕ → ℕ → Option ℕ
compound rate time_difference = do
  exp_minus_one ← minus time_difference 1
  let exp_minus_two = if ltb 2 time_difference then time_difference - 2 else 0
  let rate_per_second = rate / one_year
  let base_power_two = ray_mul rate_per_second rate_per_second
  let base_power_three = ray_mul base_power_two rate_per_second
  let second_term = time_difference * exp_minus_one * base_power_two / 2
  let third_term = time_difference * exp_minus_one * exp_minus_two * base_power_three / 6
  some (ray + rate_per_second * time_difference + second_term + third_term)

-- `calcCompoundedInterest`
unfoldable pub calc_compounded_interest : ℕ → ℕ → ℕ → Option ℕ
calc_compounded_interest rate current_timestamp last_update_timestamp = do
  time_difference ← minus current_timestamp last_update_timestamp
  (if eqb time_difference 0 then some ray else compound rate time_difference)
