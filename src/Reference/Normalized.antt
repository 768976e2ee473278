-- ===== src/Reference/Normalized.antt =====
-- The normalized income and debt of contracts/libraries/logic/ReserveLogic.sol against those of
-- test/helpers/utils/calculations.ts.
use lender.Common.{
  ℕ, ◌^◌, ◌≤◌, ◌<◌, ◌≡◌, refl, sym, ap, ◌∙◌, eqb, if◌then◌else◌, inl, inr, Bool-cases, Option, zero,
  suc, some, arith,
}
use lender.Contracts.Checked.Laws.{ok-injective}
use lender.Contracts.Math.{ray}
use lender.Contracts.ReserveLogic.{
  Indexes, get_normalized_income, get_normalized_debt, max_uint128, uint40,
}
use lender.Failure.{ok}
use lender.Reference.Accrual.{
  compounded_interest_agrees, linear_interest_agrees, compounded_at_zero, compounded_at_once,
  linear_at_zero, linear_at_once,
}
use lender.Reference.Agreement.{ray_mul_agrees}
use lender.Reference.Interest.{calc_linear_interest, calc_compounded_interest, ◌>>=◌}
use lender.Reference.Math.{ray_mul}
use lender.Reference.Reserves.{
  ReserveData, calc_expected_reserve_normalized_income, calc_expected_reserve_normalized_debt,
}

one_ray-ray_mul : (i : ℕ) → ray_mul ray i ≡ i
unfolding ray_mul
one_ray-ray_mul i = omega arith

-- What the tests expect without their early return for a rate of zero.
compounded_debt : ℕ → ℕ → ℕ → ℕ → Option ℕ
compounded_debt rate index last_update now =
    calc_compounded_interest rate now last_update >>= λ interest. some (ray_mul interest index)

early_return :
    (rate index last_update now : ℕ)
    → last_update ≤ now
    → calc_expected_reserve_normalized_debt rate index last_update now
      ≡ compounded_debt rate index last_update now
unfolding calc_expected_reserve_normalized_debt compounded_debt
early_return zero index last_update now h =
    rw (compounded_at_zero last_update now h) (ap some (sym (one_ray-ray_mul index)))
early_return (suc rate) index last_update now h = ground arith

same_time :
    (rate index last_update now : ℕ)
    → last_update ≡ now
    → calc_expected_reserve_normalized_debt rate index last_update now ≡ some index
unfolding compounded_debt
same_time rate index last_update now h =
    early_return rate index last_update now (omega arith)
    ∙ rw h (rw (compounded_at_once rate now) (ap some (one_ray-ray_mul index)))

pub get_normalized_debt_agrees :
    (r : Indexes) (now v : ℕ)
    → r.current_variable_borrow_rate ≤ max_uint128
    → r.last_update_timestamp ≤ now
    → now < 2 ^ 40
    → get_normalized_debt r now ≡ ok v
    → calc_expected_reserve_normalized_debt r.current_variable_borrow_rate r.variable_borrow_index
        r.last_update_timestamp now
      ≡ some v
unfolding get_normalized_debt compounded_debt
get_normalized_debt_agrees r now v b h l e =
    let rate = r.current_variable_borrow_rate in
    let index = r.variable_borrow_index in
    let last_update = r.last_update_timestamp in
    elim (Bool-cases (eqb last_update (uint40 now))) [
      | inl same ↦
          same_time rate index last_update now (ground arith)
          ∙ ap some (ok-injective (rw same at e))
      | inr moved ↦
          let (c, contract, expected, _) =
            compounded_interest_agrees rate last_update now (omega arith) h l in
          early_return rate index last_update now h
          ∙ rw expected (ap some (sym (ray_mul_agrees c index v (rw (moved, contract) at e))))
    ]

-- The tests always have a value for the debt.
pub expected_debt_exists :
    (rate index last_update now : ℕ)
    → rate ≤ max_uint128
    → last_update ≤ now
    → now < 2 ^ 40
    → (d : ℕ) × (calc_expected_reserve_normalized_debt rate index last_update now ≡ some d)
unfolding compounded_debt
expected_debt_exists rate index last_update now b h l =
    let (c, _, expected, _) = compounded_interest_agrees rate last_update now (omega arith) h l in
    (ray_mul c index, early_return rate index last_update now h ∙ rw expected refl)

-- What the tests expect of the income, on the numbers that it is computed from.
linear_income : ℕ → ℕ → ℕ → ℕ → Option ℕ
linear_income rate index last_update now =
    calc_linear_interest rate now last_update >>= λ interest. some (ray_mul interest index)

income_early_return :
    (rate index last_update now : ℕ)
    → last_update ≤ now
    → (if eqb rate 0 then some index else linear_income rate index last_update now)
      ≡ linear_income rate index last_update now
unfolding linear_income
income_early_return zero index last_update now h =
    rw (linear_at_zero last_update now h) (ap some (sym (one_ray-ray_mul index)))
income_early_return (suc rate) index last_update now h = ground arith

income_at_once : (rate index now : ℕ) → linear_income rate index now now ≡ some index
unfolding linear_income
income_at_once rate index now = rw (linear_at_once rate now) (ap some (one_ray-ray_mul index))

linear_income_agrees :
    (r : Indexes) (now v : ℕ)
    → r.current_liquidity_rate ≤ max_uint128
    → r.last_update_timestamp ≤ now
    → now < 2 ^ 40
    → get_normalized_income r now ≡ ok v
    → linear_income r.current_liquidity_rate r.liquidity_index r.last_update_timestamp now ≡ some v
unfolding get_normalized_income linear_income
linear_income_agrees r now v b h l e =
    let rate = r.current_liquidity_rate in
    let index = r.liquidity_index in
    let last_update = r.last_update_timestamp in
    elim (Bool-cases (eqb last_update (uint40 now))) [
      | inl same ↦
          let here : last_update ≡ now = ground arith in
          rw here (income_at_once rate index now) ∙ ap some (ok-injective (rw same at e))
      | inr moved ↦
          let (c, contract, expected, _, _) =
            linear_interest_agrees rate last_update now (omega arith) h l in
          rw expected (ap some (sym (ray_mul_agrees c index v (rw (moved, contract) at e))))
    ]

pub get_normalized_income_agrees :
    (r : Indexes) (expected : ReserveData) (now v : ℕ)
    → r.current_liquidity_rate ≤ max_uint128
    → r.last_update_timestamp ≤ now
    → now < 2 ^ 40
    → expected.liquidity_rate ≡ r.current_liquidity_rate
    → expected.liquidity_index ≡ r.liquidity_index
    → expected.last_update_timestamp ≡ r.last_update_timestamp
    → get_normalized_income r now ≡ ok v
    → calc_expected_reserve_normalized_income expected now ≡ some v
unfolding calc_expected_reserve_normalized_income linear_income
get_normalized_income_agrees r expected now v b h l er ei et e =
    rw (er, ei, et)
      (income_early_return r.current_liquidity_rate r.liquidity_index r.last_update_timestamp now h
        ∙ linear_income_agrees r now v b h l e)
