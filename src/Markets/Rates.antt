-- ===== src/Markets/Rates.antt =====
-- markets/bend/rateStrategies.ts
use lender.Common.{ℕ, ◌*◌, ◌/◌}
use lender.Constants.{one_ray}
use lender.Types.Params.{InterestRateStrategyParams}

-- `new BigNumber(0.65).multipliedBy(oneRay).toFixed()` is `of_ray 65`: the fraction in hundredths.
abbrev pub of_ray : ℕ → ℕ
of_ray hundredths = hundredths * one_ray / 100

abbrev pub rate_strategy_stable_one : InterestRateStrategyParams
rate_strategy_stable_one = record {
  name = "rateStrategyStableOne";
  optimal_utilization_rate = of_ray 80;
  base_variable_borrow_rate = of_ray 3;
  variable_rate_slope1 = of_ray 4;
  variable_rate_slope2 = of_ray 100;
}

abbrev pub rate_strategy_stable_two : InterestRateStrategyParams
rate_strategy_stable_two = record {
  name = "rateStrategyStableTwo";
  optimal_utilization_rate = of_ray 80;
  base_variable_borrow_rate = of_ray 3;
  variable_rate_slope1 = of_ray 4;
  variable_rate_slope2 = of_ray 75;
}

abbrev pub rate_strategy_stable_three : InterestRateStrategyParams
rate_strategy_stable_three = record {
  name = "rateStrategyStableThree";
  optimal_utilization_rate = of_ray 90;
  base_variable_borrow_rate = of_ray 3;
  variable_rate_slope1 = of_ray 4;
  variable_rate_slope2 = of_ray 60;
}

abbrev pub rate_strategy_weth : InterestRateStrategyParams
rate_strategy_weth = record {
  name = "rateStrategyWETH";
  optimal_utilization_rate = of_ray 65;
  base_variable_borrow_rate = of_ray 3;
  variable_rate_slope1 = of_ray 8;
  variable_rate_slope2 = of_ray 100;
}
