-- ===== src/Reference/Accrual.antt =====
-- calcLinearInterest and calcCompoundedInterest of test/helpers/utils/calculations.ts against
-- contracts/libraries/math/MathUtils.sol.
use lender.Common.{
  ℕ, zero, suc, ◌+◌, ◌-◌, ◌*◌, ◌/◌, ◌^◌, ◌≤◌, ◌<◌, ◌≡◌, refl, ltb, eqb, if◌then◌else◌, some, ap,
  arith,
}
use lender.Constants.{max_uint_amount, one_year}
use lender.Contracts.Checked.{sub}
use lender.Contracts.Checked.Laws.{add-ok, sub-ok, mul-ok, mul-le-mul}
use lender.Contracts.Interest
use lender.Contracts.Interest.Bounds.{
  square-ok, cube-ok, square_small, cube_small, second_term-ok, third_term-ok,
}
use lender.Contracts.Math.{ray}
use lender.Failure.{ok}
use lender.Reference.Interest as Expected
use lender.Reference.Math.{ray_mul}

-- `exp > 2 ? exp - 2 : 0`
abbrev less_two : ℕ → ℕ
less_two e = if ltb 2 e then e - 2 else 0

less_two-ok : (e : ℕ) → (if ltb 2 e then sub e 2 else ok 0) ≡ ok (less_two e)
unfolding sub
less_two-ok e = ground arith

-- The value of both, once the powers of the rate per second are known.
abbrev total : ℕ → ℕ → ℕ
total r e =
    let two = ray_mul r r in
    let three = ray_mul two r in
    ray + r * e + e * (e - 1) * two / 2 + e * (e - 1) * less_two e * three / 6

total_small : (r e : ℕ) → r < 2 ^ 104 → e < 2 ^ 40 → total r e ≤ max_uint_amount
total_small r e h k =
    let simple = mul-le-mul r e (2 ^ 104) (2 ^ 40) (omega arith) (omega arith) in
    let pairs = mul-le-mul e (e - 1) (2 ^ 40) (2 ^ 40) (omega arith) (omega arith) in
    let second =
      mul-le-mul (e * (e - 1)) (ray_mul r r) (2 ^ 80) (2 ^ 119) (omega (arith, pairs))
        (omega (arith, square_small r h)) in
    let triples =
      mul-le-mul (e * (e - 1)) (less_two e) (2 ^ 80) (2 ^ 40) (omega (arith, pairs))
        (ground arith) in
    let third =
      mul-le-mul (e * (e - 1) * less_two e) (ray_mul (ray_mul r r) r) (2 ^ 120) (2 ^ 134)
        (omega (arith, triples)) (omega (arith, cube_small r h)) in
    omega (arith, simple, second, third)

compound-ok :
    (rate e : ℕ)
    → rate < 2 ^ 128
    → 0 < e
    → e < 2 ^ 40
    → Interest.compound rate e ≡ ok (total (rate / one_year) e)
unfolding Interest.compound
compound-ok rate e h p k =
    let r = rate / one_year in
    let small : r < 2 ^ 104 = omega arith in
    let whole = total_small r e small k in
    rw
      (
        sub-ok e 1 p,
        less_two-ok e,
        square-ok r small,
        cube-ok r small,
        second_term-ok e (ray_mul r r) k (square_small r small),
        third_term-ok e (less_two e) (ray_mul (ray_mul r r) r) k (ground arith)
            (cube_small r small),
        mul-ok r e (omega (arith, whole)),
        add-ok ray (r * e) (omega (arith, whole)),
        add-ok (ray + r * e) (e * (e - 1) * ray_mul r r / 2) (omega (arith, whole)),
        add-ok (ray + r * e + e * (e - 1) * ray_mul r r / 2)
            (e * (e - 1) * less_two e * ray_mul (ray_mul r r) r / 6) whole,
      )
      refl

expected_compound :
    (rate e : ℕ) → 0 < e → Expected.compound rate e ≡ some (total (rate / one_year) e)
unfolding Expected.compound
expected_compound rate e p = ground arith

-- Both functions once the elapsed time is known.
elapsed_agrees :
    (rate e : ℕ)
    → rate < 2 ^ 128
    → e < 2 ^ 40
    → (v : ℕ) × ((if eqb e 0 then ok ray else Interest.compound rate e) ≡ ok v)
      × ((if eqb e 0 then some ray else Expected.compound rate e) ≡ some v)
      × (ray + rate / one_year * e ≤ v)
elapsed_agrees rate zero h k = (ray, refl, refl, omega arith)
elapsed_agrees rate (suc e) h k = (
  total (rate / one_year) (suc e),
  ground (arith, compound-ok rate (suc e)),
  ground (arith, expected_compound rate (suc e)),
  omega arith,
)

pub minus-some : (a b : ℕ) → b ≤ a → Expected.minus a b ≡ some (a - b)
minus-some a b h = ground arith

-- For a rate below 2 ^ 128 and ordered times below 2 ^ 40, the compounded interest of the contract
-- does not revert, equals what the tests expect, and is at least one ray and the simple interest.
pub compounded_interest_agrees :
    (rate last_update now : ℕ)
    → rate < 2 ^ 128
    → last_update ≤ now
    → now < 2 ^ 40
    → (v : ℕ) × (Interest.calculate_compounded_interest rate last_update now ≡ ok v)
      × (Expected.calc_compounded_interest rate now last_update ≡ some v)
      × (ray + rate / one_year * (now - last_update) ≤ v)
unfolding Interest.calculate_compounded_interest Expected.calc_compounded_interest
compounded_interest_agrees rate last_update now h k l =
    let (v, contract, expected, more) = elapsed_agrees rate (now - last_update) h (omega arith) in
    (v, rw (sub-ok now last_update k) contract, rw (minus-some now last_update k) expected, more)

pub linear_interest_agrees :
    (rate last_update now : ℕ)
    → rate < 2 ^ 128
    → last_update ≤ now
    → now < 2 ^ 40
    → (v : ℕ) × (Interest.calculate_linear_interest rate last_update now ≡ ok v)
      × (Expected.calc_linear_interest rate now last_update ≡ some v)
      × (ray ≤ v)
      × (v ≤ 2 ^ 168)
unfolding Interest.calculate_linear_interest Expected.calc_linear_interest
linear_interest_agrees rate last_update now h k l =
    let elapsed = now - last_update in
    let product = mul-le-mul rate elapsed (2 ^ 128) (2 ^ 40) (omega arith) (omega arith) in
    (
      rate * elapsed / one_year + ray,
      rw
          (
            sub-ok now last_update k,
            mul-ok rate elapsed (omega (arith, product)),
            add-ok (rate * elapsed / one_year) ray (omega (arith, product)),
          )
          refl,
      rw (minus-some now last_update k) refl,
      omega arith,
      omega (arith, product),
    )

zero_rate : (e : ℕ) → total 0 e ≡ ray
unfolding ray_mul
zero_rate e = omega arith

zero_rate_elapsed : (e : ℕ) → (if eqb e 0 then some ray else Expected.compound 0 e) ≡ some ray
zero_rate_elapsed zero = refl
zero_rate_elapsed (suc e) = ground (arith, expected_compound 0 (suc e), zero_rate (suc e))

-- A rate of zero and an elapsed time of zero both leave one ray.
pub compounded_at_zero :
    (last_update now : ℕ)
    → last_update ≤ now
    → Expected.calc_compounded_interest 0 now last_update ≡ some ray
unfolding Expected.calc_compounded_interest
compounded_at_zero last_update now h =
    rw (minus-some now last_update h) (zero_rate_elapsed (now - last_update))

pub compounded_at_once : (rate now : ℕ) → Expected.calc_compounded_interest rate now now ≡ some ray
unfolding Expected.calc_compounded_interest
compounded_at_once rate now = ground arith

pub linear_at_zero :
    (last_update now : ℕ)
    → last_update ≤ now
    → Expected.calc_linear_interest 0 now last_update ≡ some ray
unfolding Expected.calc_linear_interest
linear_at_zero last_update now h = rw (minus-some now last_update h) (ap some (omega arith))

pub linear_at_once : (rate now : ℕ) → Expected.calc_linear_interest rate now now ≡ some ray
unfolding Expected.calc_linear_interest
linear_at_once rate now = ground arith
