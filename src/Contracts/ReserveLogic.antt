-- ===== src/Contracts/ReserveLogic.antt =====
-- contracts/libraries/logic/ReserveLogic.sol: how the indexes of a reserve accumulate interest. The
-- debt token's scaled supply and the time of the block are arguments.
pub mod Growth
use lender.Common.{ℕ, ◌%◌, ◌^◌, ◌-◌, leb, ltb, eqb, not, if◌then◌else◌}
use lender.Contracts.Checked.{sub, demand, ◌>>=◌, ◌>>◌}
use lender.Contracts.Interest.{calculate_linear_interest, calculate_compounded_interest}
use lender.Contracts.Math.{ray_mul, percent_mul}
use lender.Failure.{Result, ok}
use lender.Types.ProtocolError.{rl_liquidity_index_overflow, rl_variable_borrow_index_overflow}

-- The fields of `DataTypes.ReserveData` that interest is computed from.
pub record Indexes : Type 0 where
  pub liquidity_index : ℕ
  pub variable_borrow_index : ℕ
  pub current_liquidity_rate : ℕ
  pub current_variable_borrow_rate : ℕ
  pub last_update_timestamp : ℕ

-- `type(uint128).max`
abbrev pub max_uint128 : ℕ
max_uint128 = 2 ^ 128 - 1

-- `uint40(block.timestamp)`
abbrev pub uint40 : ℕ → ℕ
uint40 t = t % 2 ^ 40

-- `getNormalizedIncome`
unfoldable pub get_normalized_income : Indexes → ℕ → Result ℕ
get_normalized_income reserve now =
    if eqb reserve.last_update_timestamp (uint40 now) then ok reserve.liquidity_index else do
      interest ←
          calculate_linear_interest reserve.current_liquidity_rate reserve.last_update_timestamp now
      ray_mul interest reserve.liquidity_index

-- `getNormalizedDebt`
unfoldable pub get_normalized_debt : Indexes → ℕ → Result ℕ
get_normalized_debt reserve now =
    if eqb reserve.last_update_timestamp (uint40 now) then ok reserve.variable_borrow_index else do
      interest ←
          calculate_compounded_interest reserve.current_variable_borrow_rate
            reserve.last_update_timestamp now
      ray_mul interest reserve.variable_borrow_index

-- The new liquidity index of `_updateIndexes`, where there is income.
unfoldable pub next_liquidity_index : Indexes → ℕ → Result ℕ
next_liquidity_index reserve now = do
  interest ←
      calculate_linear_interest reserve.current_liquidity_rate reserve.last_update_timestamp now
  index ← ray_mul interest reserve.liquidity_index
  demand (leb index max_uint128) rl_liquidity_index_overflow
  ok index

-- The new variable borrow index of `_updateIndexes`, where there is variable debt.
unfoldable pub next_variable_borrow_index : Indexes → ℕ → Result ℕ
next_variable_borrow_index reserve now = do
  interest ←
      calculate_compounded_interest reserve.current_variable_borrow_rate
        reserve.last_update_timestamp now
  index ← ray_mul interest reserve.variable_borrow_index
  demand (leb index max_uint128) rl_variable_borrow_index_overflow
  ok index

-- `_updateIndexes` where there is income.
unfoldable pub accumulate : Indexes → ℕ → ℕ → Result Indexes
accumulate reserve scaled_variable_debt now = do
  liquidity ← next_liquidity_index reserve now
  variable ←
      (if not (eqb scaled_variable_debt 0)
        then next_variable_borrow_index reserve now
        else ok reserve.variable_borrow_index)
  ok (record reserve {
    liquidity_index = liquidity;
    variable_borrow_index = variable;
    last_update_timestamp = uint40 now;
  })

-- `_updateIndexes`; the indexes that it returns are those that it leaves in the reserve.
unfoldable pub update_indexes : Indexes → ℕ → ℕ → Result Indexes
update_indexes reserve scaled_variable_debt now =
    if ltb 0 reserve.current_liquidity_rate
    then accumulate reserve scaled_variable_debt now
    else ok (record reserve { last_update_timestamp = uint40 now })
