-- ===== src/Contracts/ReserveLogic/Growth.antt =====
-- What every update of a reserve's indexes keeps.
use lender.Common.{
  ℕ, ◌^◌, ◌≤◌, ◌<◌, ◌≡◌, inl, inr, Bool-cases, leb, ltb, eqb, not, if◌then◌else◌, arith,
}
use lender.Contracts.Checked.{demand, ◌>>=◌, ◌>>◌}
use lender.Contracts.Checked.Laws.{bind-passed, ok-injective, mul-le-mul}
use lender.Contracts.Math.{ray, ray_mul}
use lender.Contracts.Math.Rounding.{ray_mul_nearest}
use lender.Contracts.ReserveLogic.{
  Indexes, next_liquidity_index, next_variable_borrow_index, accumulate, update_indexes,
  max_uint128, uint40,
}
use lender.Failure.{Result, ok}
use lender.Types.ProtocolError.{
  ProtocolError, rl_liquidity_index_overflow, rl_variable_borrow_index_overflow,
}
use lender.Reference.Accrual.{compounded_interest_agrees, linear_interest_agrees}

-- No index is below one ray, and every field is in the range of its type.
pub record IsSound (r : Indexes) : Type 0 where
  pub liquidity_from : ray ≤ r.liquidity_index
  pub liquidity_to : r.liquidity_index ≤ max_uint128
  pub variable_from : ray ≤ r.variable_borrow_index
  pub variable_to : r.variable_borrow_index ≤ max_uint128
  pub liquidity_rate_to : r.current_liquidity_rate ≤ max_uint128
  pub variable_rate_to : r.current_variable_borrow_rate ≤ max_uint128
  pub time_to : r.last_update_timestamp < 2 ^ 40

-- The reserve after an update at `now`: time moved on, and no index fell.
pub record Grown (before : Indexes) (now : ℕ) (after : Indexes) : Type 0 where
  pub sound : IsSound after
  pub liquidity : before.liquidity_index ≤ after.liquidity_index
  pub variable : before.variable_borrow_index ≤ after.variable_borrow_index
  pub time : after.last_update_timestamp ≡ now
  pub liquidity_rate : after.current_liquidity_rate ≡ before.current_liquidity_rate
  pub variable_rate : after.current_variable_borrow_rate ≡ before.current_variable_borrow_rate

-- The reserve with new indexes at a new time.
abbrev moved : Indexes → ℕ → ℕ → ℕ → Indexes
moved r now liquidity variable = record r {
  liquidity_index = liquidity;
  variable_borrow_index = variable;
  last_update_timestamp = uint40 now;
}

moved-Grown :
    (r : Indexes) (now liquidity variable : ℕ)
    → IsSound r
    → now < 2 ^ 40
    → r.liquidity_index ≤ liquidity
    → liquidity ≤ max_uint128
    → r.variable_borrow_index ≤ variable
    → variable ≤ max_uint128
    → Grown r now (moved r now liquidity variable)
moved-Grown r now liquidity variable s l h k m n = ground arith

-- Interest of at least one ray does not lower what it is applied to.
grows : (c i v : ℕ) → ray ≤ c → ray_mul c i ≡ ok v → i ≤ v
grows c i v h e = omega (arith, ray_mul_nearest c i v e, mul-le-mul ray i c i h (omega arith))

-- The bounded product in which both new indexes end.
bounded : (c i : ℕ) (code : ProtocolError) → Result ℕ
bounded c i code = do index ← ray_mul c i; demand (leb index max_uint128) code; ok index

bounded_lem :
    (c i : ℕ) (code : ProtocolError) (v : ℕ)
    → ray ≤ c
    → bounded c i code ≡ ok v
    → (i ≤ v) × (v ≤ max_uint128)
unfolding bounded
bounded_lem c i code v h e =
    let (index, product, rest) =
      bind-passed (ray_mul c i) (λ index. demand (leb index max_uint128) code >> ok index) e in
    ground (arith, grows c i index)

module _ (r : Indexes) (now : ℕ) (s : IsSound r) (h : r.last_update_timestamp ≤ now)
    (l : now < 2 ^ 40) where
  next_liquidity_index_lem :
      (v : ℕ) → next_liquidity_index r now ≡ ok v → (r.liquidity_index ≤ v) × (v ≤ max_uint128)
  unfolding next_liquidity_index bounded
  next_liquidity_index_lem v e =
      let (c, linear, _, from, _) =
        linear_interest_agrees r.current_liquidity_rate r.last_update_timestamp now
          (omega (arith, s.liquidity_rate_to)) h l in
      bounded_lem c r.liquidity_index rl_liquidity_index_overflow v from (rw linear at e)

  next_variable_borrow_index_lem :
      (v : ℕ)
      → next_variable_borrow_index r now ≡ ok v
      → (r.variable_borrow_index ≤ v) × (v ≤ max_uint128)
  unfolding next_variable_borrow_index bounded
  next_variable_borrow_index_lem v e =
      let (c, compounded, _, from) =
        compounded_interest_agrees r.current_variable_borrow_rate r.last_update_timestamp now
          (omega (arith, s.variable_rate_to)) h l in
      bounded_lem c r.variable_borrow_index rl_variable_borrow_index_overflow v
        (omega (arith, from)) (rw compounded at e)

  variable_step : ℕ → Result ℕ
  variable_step scaled =
      if not (eqb scaled 0) then next_variable_borrow_index r now else ok r.variable_borrow_index

  variable_step_lem :
      (scaled v : ℕ)
      → variable_step scaled ≡ ok v
      → (r.variable_borrow_index ≤ v) × (v ≤ max_uint128)
  unfolding variable_step
  variable_step_lem scaled v e = elim (Bool-cases (eqb scaled 0)) [
    | inl none_lent ↦
        let same = ok-injective (rw none_lent at e) in omega (arith, same, s.variable_to)
    | inr lent ↦ next_variable_borrow_index_lem v (rw lent at e)
  ]

  accumulate_lem :
      (scaled : ℕ) (after : Indexes) → accumulate r scaled now ≡ ok after → Grown r now after
  unfolding accumulate variable_step
  accumulate_lem scaled after e =
      let (liquidity, first, rest) =
        bind-passed (next_liquidity_index r now)
          (λ liquidity. variable_step scaled >>= λ variable. ok (moved r now liquidity variable))
          e in
      let (variable, second, last) =
        bind-passed (variable_step scaled) (λ variable. ok (moved r now liquidity variable)) rest in
      let (grown, small) = next_liquidity_index_lem liquidity first in
      let (grown', small') = variable_step_lem scaled variable second in
      rw (← ok-injective last) (moved-Grown r now liquidity variable s l grown small grown' small')

  -- Where a reserve is sound, time has not gone back and the block's time has 40 bits, an update
  -- of the indexes that returns leaves a sound reserve, at the time of the block, with the same
  -- rates and with neither index lower than before. A sound reserve has both indexes between one
  -- ray and the 128-bit maximum, and its rates and time in their types.
  pub update_indexes_grows :
      (scaled : ℕ) (after : Indexes) → update_indexes r scaled now ≡ ok after → Grown r now after
  unfolding update_indexes
  update_indexes_grows scaled after e = elim (Bool-cases (ltb 0 r.current_liquidity_rate)) [
    | inl income ↦ accumulate_lem scaled after (rw income at e)
    | inr still ↦ rw (← ok-injective (rw still at e)) (
        moved-Grown r now r.liquidity_index r.variable_borrow_index s l (omega arith) s.liquidity_to
          (omega arith) s.variable_to)
  ]
