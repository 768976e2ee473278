-- ===== src/Markets/Reserves.antt =====
-- markets/bend/reservesConfigs.ts: the parameters of the reserves.
use lender.Common.{true, [], ◌∷◌}
use lender.Common.Dict.{Dict}
use lender.Markets.Rates.{
  rate_strategy_stable_one, rate_strategy_stable_two, rate_strategy_stable_three,
  rate_strategy_weth,
}
use lender.Types.ContractId.{b_token}
use lender.Types.Params.{ReserveParams}

abbrev pub strategy_busd : ReserveParams
strategy_busd = record {
  strategy = rate_strategy_stable_one;
  base_ltv_as_collateral = 0;
  liquidation_threshold = 0;
  liquidation_bonus = 0;
  borrowing_enabled = true;
  reserve_decimals = 18;
  b_token_impl = b_token;
  reserve_factor = 3000;
}

abbrev pub strategy_dai : ReserveParams
strategy_dai = record {
  strategy = rate_strategy_stable_two;
  base_ltv_as_collateral = 7500;
  liquidation_threshold = 8000;
  liquidation_bonus = 500;
  borrowing_enabled = true;
  reserve_decimals = 18;
  b_token_impl = b_token;
  reserve_factor = 3000;
}

abbrev pub strategy_usdc : ReserveParams
strategy_usdc = record {
  strategy = rate_strategy_stable_three;
  base_ltv_as_collateral = 8000;
  liquidation_threshold = 8500;
  liquidation_bonus = 500;
  borrowing_enabled = true;
  reserve_decimals = 6;
  b_token_impl = b_token;
  reserve_factor = 3000;
}

abbrev pub strategy_usdt : ReserveParams
strategy_usdt = record {
  strategy = rate_strategy_stable_three;
  base_ltv_as_collateral = 8000;
  liquidation_threshold = 8500;
  liquidation_bonus = 500;
  borrowing_enabled = true;
  reserve_decimals = 6;
  b_token_impl = b_token;
  reserve_factor = 3000;
}

abbrev pub strategy_weth : ReserveParams
strategy_weth = record {
  strategy = rate_strategy_weth;
  base_ltv_as_collateral = 8000;
  liquidation_threshold = 8250;
  liquidation_bonus = 500;
  borrowing_enabled = true;
  reserve_decimals = 18;
  b_token_impl = b_token;
  reserve_factor = 3000;
}

-- `strategyReserveParams`
abbrev pub strategy_reserve_params : Dict ReserveParams
strategy_reserve_params =
    ("WETH", strategy_weth)
    ∷ ("USDT", strategy_usdt)
    ∷ ("USDC", strategy_usdc)
    ∷ ("DAI", strategy_dai)
    ∷ []
