-- ===== src/Contracts/Interest.antt =====
-- contracts/libraries/math/MathUtils.sol: the interest accumulated between two times, in ray. The time
-- of the block is an argument.
pub mod Bounds
use lender.Common.{ℕ, ◌/◌, eqb, ltb, if◌then◌else◌}
use lender.Contracts.Checked.{add, sub, mul, ◌>>=◌}
use lender.Contracts.Math.{ray, ray_mul}
use lender.Failure.{Result, ok}

-- `SECONDS_PER_YEAR`
abbrev pub seconds_per_year : ℕ
seconds_per_year = 31536000

-- `calculateLinearInterest`
unfoldable pub calculate_linear_interest : ℕ → ℕ → ℕ → Result ℕ
calculate_linear_interest rate last_update_timestamp block_timestamp = do
  time_difference ← sub block_timestamp last_update_timestamp
  product ← mul rate time_difference
  add (product / seconds_per_year) ray

-- `exp * (expMinusOne) * basePower / 2` and its like: a product of three factors, divided.
unfoldable pub second_term : ℕ → ℕ → ℕ → Result ℕ
second_term exp exp_minus_one base_power_two = do
  pairs ← mul exp exp_minus_one
  product ← mul pairs base_power_two
  ok (product / 2)

unfoldable pub third_term : ℕ → ℕ → ℕ → ℕ → Result ℕ
third_term exp exp_minus_one exp_minus_two base_power_three = do
  pairs ← mul exp exp_minus_one
  triples ← mul pairs exp_minus_two
  product ← mul triples base_power_three
  ok (product / 6)

-- The terms of the binomial approximation, for an elapsed time that is not zero.
unfoldable pub compound : ℕ → ℕ → Result ℕ
compound rate exp = do
  exp_minus_one ← sub exp 1
  exp_minus_two ← (if ltb 2 exp then sub exp 2 else ok 0)
  let rate_per_second = rate / seconds_per_year
  base_power_two ← ray_mul rate_per_second rate_per_second
  base_power_three ← ray_mul base_power_two rate_per_second
  second ← second_term exp exp_minus_one base_power_two
  third ← third_term exp exp_minus_one exp_minus_two base_power_three
  simple ← mul rate_per_second exp
  with_simple ← add ray simple
  with_second ← add with_simple second
  add with_second third

-- `calculateCompoundedInterest`
unfoldable pub calculate_compounded_interest : ℕ → ℕ → ℕ → Result ℕ
calculate_compounded_interest rate last_update_timestamp current_timestamp = do
  exp ← sub current_timestamp last_update_timestamp
  (if eqb exp 0 then ok ray else compound rate exp)
