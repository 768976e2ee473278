-- ===== src/Reference/Rates.antt =====
-- The rates of test/helpers/utils/calculations.ts, on natural numbers. The parameters of the reserves,
-- which the source keeps in a global, are an argument.
pub mod Agreement
use lender.Common.{ℕ, String, ◌+◌, ltb, eqb, if◌then◌else◌, Option, none, some}
use lender.Common.Dict.{Dict, lookup}
use lender.Constants.{ray, percentage_factor}
use lender.Reference.Interest.{minus, ◌>>=◌}
use lender.Reference.Math.{ray_mul, ray_div, percent_mul, wad_to_ray}
use lender.Types.Params.{InterestRateStrategyParams, ReserveParams}

-- `calcExpectedUtilizationRate`
unfoldable pub calc_expected_utilization_rate : ℕ → ℕ → Option ℕ
calc_expected_utilization_rate total_variable_debt total_liquidity =
    if eqb total_variable_debt 0 then some 0 else ray_div total_variable_debt total_liquidity

-- `calcExpectedOverallBorrowRate`
unfoldable pub calc_expected_overall_borrow_rate : ℕ → ℕ → Option ℕ
calc_expected_overall_borrow_rate total_variable_debt current_variable_borrow_rate =
    if eqb total_variable_debt 0
    then some 0
    else ray_div (ray_mul (wad_to_ray total_variable_debt) current_variable_borrow_rate)
        (wad_to_ray total_variable_debt)

-- The borrow rate of `calcExpectedInterestRates` above the optimal utilization.
unfoldable pub steep_rate : InterestRateStrategyParams → ℕ → Option ℕ
steep_rate strategy utilization_rate = do
  excess_rate ← minus ray strategy.optimal_utilization_rate
  excess ← minus utilization_rate strategy.optimal_utilization_rate
  excess_utilization_rate_ratio ← ray_div excess excess_rate
  some (
      strategy.base_variable_borrow_rate
      + strategy.variable_rate_slope1
      + ray_mul strategy.variable_rate_slope2 excess_utilization_rate_ratio)

-- The borrow rate of `calcExpectedInterestRates` up to the optimal utilization.
unfoldable pub gentle_rate : InterestRateStrategyParams → ℕ → Option ℕ
gentle_rate strategy utilization_rate = do
  ratio ← ray_div utilization_rate strategy.optimal_utilization_rate
  some (strategy.base_variable_borrow_rate + ray_mul ratio strategy.variable_rate_slope1)

-- `calcExpectedInterestRates`: the liquidity rate and the variable borrow rate, for the parameters of
-- the reserve.
unfoldable pub interest_rates : ReserveParams → ℕ → ℕ → Option (ℕ × ℕ)
interest_rates params utilization_rate total_variable_debt = do
  variable_borrow_rate ←
      (if ltb params.strategy.optimal_utilization_rate utilization_rate
        then steep_rate params.strategy utilization_rate
        else gentle_rate params.strategy utilization_rate)
  expected_overall_rate ← calc_expected_overall_borrow_rate total_variable_debt variable_borrow_rate
  share ← minus percentage_factor params.reserve_factor
  some (percent_mul (ray_mul expected_overall_rate utilization_rate) share, variable_borrow_rate)

-- `calcExpectedInterestRates`; a symbol without parameters throws, which is `none` too.
unfoldable pub calc_expected_interest_rates : Dict ReserveParams → String → ℕ → ℕ → Option (ℕ × ℕ)
calc_expected_interest_rates reserves_params reserve_symbol utilization_rate total_variable_debt =
    do
      params ← lookup reserve_symbol reserves_params
      interest_rates params utilization_rate total_variable_debt
