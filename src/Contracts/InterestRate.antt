-- ===== src/Contracts/InterestRate.antt =====
-- contracts/protocol/InterestRate.sol: the rates of a reserve by its utilization, on two slopes.
pub mod Bounds
use lender.Common.{ℕ, ltb, eqb, if◌then◌else◌}
use lender.Contracts.Checked.{add, sub, ◌>>=◌}
use lender.Contracts.Math.{ray, percentage_factor, ray_mul, ray_div, percent_mul, wad_to_ray}
use lender.Failure.{Result, ok}

-- The state of the contract.
pub record InterestRate : Type 0 where
  pub optimal_utilization_rate : ℕ
  pub excess_utilization_rate : ℕ
  pub base_variable_borrow_rate : ℕ
  pub variable_rate_slope1 : ℕ
  pub variable_rate_slope2 : ℕ

-- The constructor; `setInterestRateParams` writes the same fields.
unfoldable pub set_interest_rate_params : ℕ → ℕ → ℕ → ℕ → Result InterestRate
set_interest_rate_params optimal base slope1 slope2 = do
  excess ← sub ray optimal
  ok (record {
    optimal_utilization_rate = optimal;
    excess_utilization_rate = excess;
    base_variable_borrow_rate = base;
    variable_rate_slope1 = slope1;
    variable_rate_slope2 = slope2;
  })

-- `getMaxVariableBorrowRate`
unfoldable pub get_max_variable_borrow_rate : InterestRate → Result ℕ
get_max_variable_borrow_rate strategy = do
  partial ← add strategy.base_variable_borrow_rate strategy.variable_rate_slope1
  add partial strategy.variable_rate_slope2

-- `vars.utilizationRate` of `calculateInterestRates`
unfoldable pub utilization : ℕ → ℕ → Result ℕ
utilization available_liquidity total_debt =
    if eqb total_debt 0
    then ok 0
    else do total ← add available_liquidity total_debt; ray_div total_debt total

-- The rate above the optimal utilization.
unfoldable pub steep_rate : InterestRate → ℕ → Result ℕ
steep_rate strategy utilization_rate = do
  excess ← sub utilization_rate strategy.optimal_utilization_rate
  ratio ← ray_div excess strategy.excess_utilization_rate
  partial ← add strategy.base_variable_borrow_rate strategy.variable_rate_slope1
  slope ← ray_mul strategy.variable_rate_slope2 ratio
  add partial slope

-- The rate up to the optimal utilization.
unfoldable pub gentle_rate : InterestRate → ℕ → Result ℕ
gentle_rate strategy utilization_rate = do
  slope ← ray_mul utilization_rate strategy.variable_rate_slope1
  scaled ← ray_div slope strategy.optimal_utilization_rate
  add strategy.base_variable_borrow_rate scaled

-- `vars.currentVariableBorrowRate` of `calculateInterestRates`
unfoldable pub variable_borrow_rate : InterestRate → ℕ → Result ℕ
variable_borrow_rate strategy utilization_rate =
    if ltb strategy.optimal_utilization_rate utilization_rate
    then steep_rate strategy utilization_rate
    else gentle_rate strategy utilization_rate

-- `_getOverallBorrowRate`
unfoldable pub get_overall_borrow_rate : ℕ → ℕ → Result ℕ
get_overall_borrow_rate total_variable_debt current_variable_borrow_rate =
    if eqb total_variable_debt 0 then ok 0 else do
      debt ← wad_to_ray total_variable_debt
      weighted_variable_rate ← ray_mul debt current_variable_borrow_rate
      ray_div weighted_variable_rate debt

-- `vars.currentLiquidityRate` of `calculateInterestRates`
unfoldable pub liquidity_rate : ℕ → ℕ → ℕ → ℕ → Result ℕ
liquidity_rate total_variable_debt current_variable_borrow_rate utilization_rate reserve_factor = do
  overall ← get_overall_borrow_rate total_variable_debt current_variable_borrow_rate
  income ← ray_mul overall utilization_rate
  share ← sub percentage_factor reserve_factor
  percent_mul income share

-- `calculateInterestRates`: the liquidity rate and the variable borrow rate
unfoldable pub calculate_interest_rates : InterestRate → ℕ → ℕ → ℕ → Result (ℕ × ℕ)
calculate_interest_rates strategy available_liquidity total_variable_debt reserve_factor = do
  utilization_rate ← utilization available_liquidity total_variable_debt
  current_variable_borrow_rate ← variable_borrow_rate strategy utilization_rate
  current_liquidity_rate ←
      liquidity_rate total_variable_debt current_variable_borrow_rate utilization_rate
        reserve_factor
  ok (current_liquidity_rate, current_variable_borrow_rate)
