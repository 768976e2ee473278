-- ===== src/Contracts/Tokens.antt =====
-- contracts/protocol/BToken.sol and DebtToken.sol: the balance of a user, who holds a scaled amount, in
-- the reserve that the pool keeps for the asset.
use lender.Common.{ℕ, eqb, if◌then◌else◌}
use lender.Contracts.Checked.{◌>>=◌}
use lender.Contracts.Math.{ray_mul}
use lender.Contracts.ReserveLogic.{Indexes, get_normalized_income, get_normalized_debt}
use lender.Failure.{Result, ok}

-- `balanceOf` of BToken.sol
unfoldable pub b_token_balance_of : Indexes → ℕ → ℕ → Result ℕ
b_token_balance_of reserve scaled_balance now = do
  income ← get_normalized_income reserve now
  ray_mul scaled_balance income

-- `balanceOf` of DebtToken.sol
unfoldable pub debt_token_balance_of : Indexes → ℕ → ℕ → Result ℕ
debt_token_balance_of reserve scaled_balance now =
    if eqb scaled_balance 0
    then ok 0
    else do debt ← get_normalized_debt reserve now; ray_mul scaled_balance debt
