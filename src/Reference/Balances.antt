-- ===== src/Reference/Balances.antt =====
-- The balances of contracts/protocol/BToken.sol and DebtToken.sol against those that
-- test/helpers/utils/calculations.ts expects.
use lender.Common.{ℕ, ◌^◌, Bool-cases, inl, inr, eqb, eqb_iff, ◌≤◌, ◌<◌, ◌≡◌, sym, ap, some, arith}
use lender.Contracts.Checked.Laws.{bind-passed, ok-injective}
use lender.Contracts.Math.{ray_mul}
use lender.Contracts.ReserveLogic.{Indexes, get_normalized_income, get_normalized_debt}
use lender.Contracts.ReserveLogic.Growth.{IsSound}
use lender.Contracts.Tokens.{b_token_balance_of, debt_token_balance_of}
use lender.Failure.{ok}
use lender.Reference.Agreement.{ray_mul_agrees}
use lender.Reference.Math as Expected
use lender.Reference.Normalized.{
  get_normalized_income_agrees, get_normalized_debt_agrees, expected_debt_exists,
}
use lender.Reference.Reserves.{
  ReserveData, UserReserveData, calc_expected_b_token_balance,
  calc_expected_variable_debt_token_balance,
}

-- What the tests read of the reserve is what the contract holds.
pub record Reads (expected : ReserveData) (r : Indexes) : Type 0 where
  pub liquidity_rate : expected.liquidity_rate ≡ r.current_liquidity_rate
  pub liquidity_index : expected.liquidity_index ≡ r.liquidity_index
  pub variable_rate : expected.variable_borrow_rate ≡ r.current_variable_borrow_rate
  pub variable_index : expected.variable_borrow_index ≡ r.variable_borrow_index
  pub time : expected.last_update_timestamp ≡ r.last_update_timestamp

module _ (r : Indexes) (expected : ReserveData) (user : UserReserveData) (now v : ℕ)
    (sound : IsSound r) (reads : Reads expected r) (later : r.last_update_timestamp ≤ now)
    (small : now < 2 ^ 40) where
  pub b_token_balance_agrees :
      b_token_balance_of r user.scaled_b_token_balance now ≡ ok v
      → calc_expected_b_token_balance expected user now ≡ some v
  unfolding b_token_balance_of calc_expected_b_token_balance
  b_token_balance_agrees e =
      let (income, normalized, product) =
        bind-passed (get_normalized_income r now) (ray_mul user.scaled_b_token_balance) e in
      let known =
        get_normalized_income_agrees r expected now income sound.liquidity_rate_to later small
          reads.liquidity_rate reads.liquidity_index reads.time normalized in
      rw known (ap some (sym (ray_mul_agrees user.scaled_b_token_balance income v product)))

  -- Where the tests read the rates, the indexes and the time of a sound reserve as the contract
  -- holds them, time has not gone back and the block's time has 40 bits, a debt balance that the
  -- debt token returns is the one that the tests expect.
  pub variable_debt_agrees :
      debt_token_balance_of r user.scaled_variable_debt now ≡ ok v
      → calc_expected_variable_debt_token_balance expected user now ≡ some v
  unfolding debt_token_balance_of calc_expected_variable_debt_token_balance Expected.ray_mul
  variable_debt_agrees e =
      rw (reads.variable_rate, reads.variable_index, reads.time)
        (elim (Bool-cases (eqb user.scaled_variable_debt 0)) [
          | inl owes_nothing ↦
              let (d, exists) =
                expected_debt_exists r.current_variable_borrow_rate r.variable_borrow_index
                  r.last_update_timestamp now sound.variable_rate_to later small in
              let returned = ok-injective (rw owes_nothing at e) in
              let nothing = (eqb_iff user.scaled_variable_debt 0).0 owes_nothing in
              rw exists (ap some (rw nothing (omega (arith, returned))))
          | inr owes ↦
              let (debt, normalized, product) =
                bind-passed (get_normalized_debt r now) (ray_mul user.scaled_variable_debt)
                  (rw owes at e) in
              let known =
                get_normalized_debt_agrees r now debt sound.variable_rate_to later small
                  normalized in
              rw known (ap some (sym (ray_mul_agrees user.scaled_variable_debt debt v product)))
        ])
