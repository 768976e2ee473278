-- ===== src/Reference/Rates/Agreement.antt =====
-- The rates above the optimal utilization: contracts/protocol/InterestRate.sol against
-- test/helpers/utils/calculations.ts.
use lender.Common.{ℕ, zero, suc, ◌-◌, ◌≤◌, ◌<◌, ◌≡◌, refl, sym, ap, ◌∙◌, ltb_iff, some, arith}
use lender.Contracts.Checked.{sub, ◌>>=◌}
use lender.Contracts.Checked.Laws.{bind-passed, ok-injective, sub-passed}
use lender.Contracts.InterestRate
use lender.Contracts.InterestRate.Bounds.{steep_rate_passed, calculate_interest_rates_passed}
use lender.Reference.Accrual.{minus-some}
use lender.Contracts.Math
use lender.Contracts.Math.{ray, percentage_factor}
use lender.Failure.{ok}
use lender.Reference.Agreement.{
  ray_mul_agrees, percent_mul_agrees, wad_to_ray_agrees, ray_div_agrees,
}
use lender.Reference.Math as Expected
use lender.Reference.Rates.{
  calc_expected_overall_borrow_rate, steep_rate, interest_rates, calc_expected_interest_rates,
}
use lender.Types.Params.{InterestRateStrategyParams, ReserveParams}
use lender.Common.{String}
use lender.Common.Dict.{Dict, lookup}

overall_agrees :
    (debt rate v : ℕ)
    → InterestRate.get_overall_borrow_rate debt rate ≡ ok v
    → calc_expected_overall_borrow_rate debt rate ≡ some v
unfolding InterestRate.get_overall_borrow_rate calc_expected_overall_borrow_rate
overall_agrees zero rate v e = ap some (ok-injective e)
overall_agrees (suc debt) rate v e =
    let (whole, converted, rest) =
      bind-passed (Math.wad_to_ray (suc debt))
        (λ whole. Math.ray_mul whole rate >>= λ weighted. Math.ray_div weighted whole) {w = v}
        (ground arith) in
    let (weighted, product, last) =
      bind-passed (Math.ray_mul whole rate) (λ weighted. Math.ray_div weighted whole) rest in
    let (exact, small) = wad_to_ray_agrees (suc debt) whole converted in
    let quotient = ray_div_agrees weighted whole v small last in
    let same = ray_mul_agrees whole rate weighted product in ground (arith, quotient, same, exact)

-- What the constructor records.
recorded :
    (s : InterestRate.InterestRate) (params : InterestRateStrategyParams)
    → InterestRate.set_interest_rate_params params.optimal_utilization_rate
        params.base_variable_borrow_rate params.variable_rate_slope1 params.variable_rate_slope2
      ≡ ok s
    → (params.optimal_utilization_rate ≤ ray)
      × (s.optimal_utilization_rate ≡ params.optimal_utilization_rate)
      × (s.excess_utilization_rate ≡ ray - params.optimal_utilization_rate)
      × (s.base_variable_borrow_rate ≡ params.base_variable_borrow_rate)
      × (s.variable_rate_slope1 ≡ params.variable_rate_slope1)
      × (s.variable_rate_slope2 ≡ params.variable_rate_slope2)
unfolding InterestRate.set_interest_rate_params sub
recorded s params made = ground arith

steep_rate_agrees :
    (s : InterestRate.InterestRate) (params : InterestRateStrategyParams) (u v : ℕ)
    → InterestRate.set_interest_rate_params params.optimal_utilization_rate
        params.base_variable_borrow_rate params.variable_rate_slope1 params.variable_rate_slope2
      ≡ ok s
    → InterestRate.steep_rate s u ≡ ok v
    → steep_rate params u ≡ some v
unfolding InterestRate.steep_rate InterestRate.set_interest_rate_params steep_rate
steep_rate_agrees s params u v made e =
    let (fits, optimal, excess, base, slope1, slope2) = recorded s params made in
    let (ratio, slope, enough, quotient, product, total) = steep_rate_passed s u v e in
    let expected_ratio =
      ray_div_agrees (u - s.optimal_utilization_rate) s.excess_utilization_rate ratio
        (omega (arith, excess)) quotient in
    let expected_slope = ray_mul_agrees s.variable_rate_slope2 ratio slope product in
    rw
      (
        minus-some ray params.optimal_utilization_rate fits,
        minus-some u params.optimal_utilization_rate (omega (arith, optimal, enough)),
        ← excess,
        ← optimal,
        ← base,
        ← slope1,
        ← slope2,
        expected_ratio,
      )
      (ap some (omega (arith, total, expected_slope)))

liquidity_rate_agrees :
    (debt rate u factor v : ℕ)
    → InterestRate.liquidity_rate debt rate u factor ≡ ok v
    → (overall : ℕ) × (calc_expected_overall_borrow_rate debt rate ≡ some overall)
      × (factor ≤ percentage_factor)
      × (v ≡ Expected.percent_mul (Expected.ray_mul overall u) (percentage_factor - factor))
unfolding InterestRate.liquidity_rate
liquidity_rate_agrees debt rate u factor v e =
    let (overall, weighted, rest) =
      bind-passed (InterestRate.get_overall_borrow_rate debt rate)
        (λ overall.
          (Math.ray_mul overall u >>= λ income.
          sub percentage_factor factor >>= λ share. Math.percent_mul income share))
        e in
    let (income, product, rest') =
      bind-passed (Math.ray_mul overall u)
        (λ income. sub percentage_factor factor >>= λ share. Math.percent_mul income share) rest in
    let (share, difference, last) =
      bind-passed (sub percentage_factor factor) (Math.percent_mul income) rest' in
    let (exact, enough) = sub-passed percentage_factor factor share difference in
    (
      overall,
      overall_agrees debt rate overall weighted,
      enough,
      percent_mul_agrees income share v last
          ∙ ap (λ x. Expected.percent_mul x share) (ray_mul_agrees overall u income product)
          ∙ ap (Expected.percent_mul (Expected.ray_mul overall u)) exact,
    )

-- Where the strategy was made from the parameters that the market lists for the symbol and the
-- utilization is above the optimal one, the liquidity rate and the borrow rate that the contract
-- returns are those that the tests expect.
pub interest_rates_agree :
    (s : InterestRate.InterestRate) (reserves : Dict ReserveParams) (symbol : String)
    (params : ReserveParams) (available debt u liquidity variable : ℕ)
    → lookup symbol reserves ≡ some params
    → InterestRate.set_interest_rate_params params.strategy.optimal_utilization_rate
        params.strategy.base_variable_borrow_rate params.strategy.variable_rate_slope1
        params.strategy.variable_rate_slope2
      ≡ ok s
    → InterestRate.utilization available debt ≡ ok u
    → params.strategy.optimal_utilization_rate < u
    → InterestRate.calculate_interest_rates s available debt params.reserve_factor
      ≡ ok (liquidity, variable)
    → calc_expected_interest_rates reserves symbol u debt ≡ some (liquidity, variable)
unfolding InterestRate.calculate_interest_rates InterestRate.variable_borrow_rate
    calc_expected_interest_rates interest_rates
interest_rates_agree s reserves symbol params available debt u liquidity variable found made used
      over e =
    let (u', used', rate, income) =
      calculate_interest_rates_passed s available debt params.reserve_factor liquidity variable e in
    let same : u' ≡ u = ok-injective (sym used' ∙ used) in
    let (_, optimal, _, _, _, _) = recorded s params.strategy made in
    let steep : InterestRate.steep_rate s u ≡ ok variable =
      rw
        (
          same,
          InterestRate.variable_borrow_rate,
          (ltb_iff s.optimal_utilization_rate u).1 (omega (arith, optimal, over)),
        )
        at rate in
    let (overall, weighted, enough, exact) =
      liquidity_rate_agrees debt variable u params.reserve_factor liquidity (rw same at income) in
    rw
      (
        found,
        (ltb_iff params.strategy.optimal_utilization_rate u).1 over,
        steep_rate_agrees s params.strategy u variable made steep,
        weighted,
        minus-some percentage_factor params.reserve_factor enough,
        ← exact,
      )
      refl
