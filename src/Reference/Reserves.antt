-- ===== src/Reference/Reserves.antt =====
-- The indexes and balances of test/helpers/utils/calculations.ts, on natural numbers, and the records
-- of test/helpers/utils/interfaces/index.ts that they read.
use lender.Common.{ℕ, String, eqb, if◌then◌else◌, Option, some}
use lender.Reference.Interest.{calc_linear_interest, calc_compounded_interest, ◌>>=◌}
use lender.Reference.Math.{ray_mul}

-- `ReserveData`
pub record ReserveData : Type 0 where
  pub address : String
  pub symbol : String
  pub decimals : ℕ
  pub total_liquidity : ℕ
  pub available_liquidity : ℕ
  pub total_variable_debt : ℕ
  pub scaled_variable_debt : ℕ
  pub variable_borrow_rate : ℕ
  pub utilization_rate : ℕ
  pub liquidity_index : ℕ
  pub variable_borrow_index : ℕ
  pub b_token_address : String
  pub last_update_timestamp : ℕ
  pub liquidity_rate : ℕ

-- `UserReserveData`
pub record UserReserveData : Type 0 where
  pub scaled_b_token_balance : ℕ
  pub current_b_token_balance : ℕ
  pub current_variable_debt : ℕ
  pub scaled_variable_debt : ℕ
  pub liquidity_rate : ℕ
  pub wallet_balance : ℕ

-- `calcExpectedReserveNormalizedIncome`
unfoldable pub calc_expected_reserve_normalized_income : ReserveData → ℕ → Option ℕ
calc_expected_reserve_normalized_income reserve current_timestamp =
    if eqb reserve.liquidity_rate 0 then some reserve.liquidity_index else do
      interest ←
          calc_linear_interest reserve.liquidity_rate current_timestamp
            reserve.last_update_timestamp
      some (ray_mul interest reserve.liquidity_index)

-- `calcExpectedReserveNormalizedDebt`
unfoldable pub calc_expected_reserve_normalized_debt : ℕ → ℕ → ℕ → ℕ → Option ℕ
calc_expected_reserve_normalized_debt rate index last_update_timestamp current_timestamp =
    if eqb rate 0 then some index else do
      interest ← calc_compounded_interest rate current_timestamp last_update_timestamp
      some (ray_mul interest index)

-- `calcExpectedLiquidityIndex`
unfoldable pub calc_expected_liquidity_index : ReserveData → ℕ → Option ℕ
calc_expected_liquidity_index reserve timestamp =
    if eqb reserve.utilization_rate 0 then some reserve.liquidity_index else do
      interest ← calc_linear_interest reserve.liquidity_rate timestamp reserve.last_update_timestamp
      some (ray_mul interest reserve.liquidity_index)

-- `calcExpectedVariableBorrowIndex`
unfoldable pub calc_expected_variable_borrow_index : ReserveData → ℕ → Option ℕ
calc_expected_variable_borrow_index reserve timestamp =
    if eqb reserve.total_variable_debt 0 then some reserve.variable_borrow_index else do
      interest ←
          calc_compounded_interest reserve.variable_borrow_rate timestamp
            reserve.last_update_timestamp
      some (ray_mul interest reserve.variable_borrow_index)

-- `calcExpectedBTokenBalance`
unfoldable pub calc_expected_b_token_balance : ReserveData → UserReserveData → ℕ → Option ℕ
calc_expected_b_token_balance reserve user current_timestamp = do
  index ← calc_expected_reserve_normalized_income reserve current_timestamp
  some (ray_mul user.scaled_b_token_balance index)

-- `calcExpectedVariableDebtTokenBalance`
unfoldable pub calc_expected_variable_debt_token_balance :
    ReserveData → UserReserveData → ℕ → Option ℕ
calc_expected_variable_debt_token_balance reserve user current_timestamp = do
  normalized_debt ←
      calc_expected_reserve_normalized_debt reserve.variable_borrow_rate
        reserve.variable_borrow_index reserve.last_update_timestamp current_timestamp
  some (ray_mul user.scaled_variable_debt normalized_debt)
