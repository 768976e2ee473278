-- ===== src/Contracts/InterestRate/Bounds.antt =====
-- The variable borrow rate stays within what the contract gives as its maximum.
use lender.Common.{
  ℕ, zero, suc, ◌+◌, ◌-◌, ◌*◌, ◌≤◌, ◌<◌, ◌≡◌, ap, sym, ◌∙◌, inl, inr, Bool-cases, ltb, arith,
}
use native.Mathlib.Nat.{lt_of_mul-lt-mul_right}
use lender.Constants.{max_uint_amount}
use lender.Contracts.Checked.{add, sub, ◌>>=◌}
use lender.Contracts.Checked.Laws.{bind-passed, ok-injective, mul-le-mul, add-passed, sub-passed}
use lender.Contracts.InterestRate.{
  InterestRate, get_max_variable_borrow_rate, utilization, steep_rate, gentle_rate,
  variable_borrow_rate, liquidity_rate, calculate_interest_rates,
}
use lender.Contracts.Math.{ray, ray_mul, ray_div}
use lender.Contracts.Math.Rounding.{ray_mul_nearest, ray_div_nearest}
use lender.Failure.{Result, ok}

-- A part of a whole is at most one ray of it.
ray_div-le_ray : (a b v : ℕ) → b ≤ max_uint_amount → a ≤ b → ray_div a b ≡ ok v → v ≤ ray
ray_div-le_ray a b v h k e =
    let (low, high, small, positive) = ray_div_nearest a b v h e in grind arith

-- At most one ray of something is at most all of it.
ray_mul-le_self : (a b v : ℕ) → b ≤ ray → ray_mul a b ≡ ok v → v ≤ a
ray_mul-le_self a b v h e =
    omega (arith, ray_mul_nearest a b v e, mul-le-mul a b a ray (omega arith) h)

utilization-le_ray : (available debt u : ℕ) → utilization available debt ≡ ok u → u ≤ ray
unfolding utilization
utilization-le_ray available zero u e = omega (arith, ok-injective e)
utilization-le_ray available (suc debt) u e =
    let (total, sum, quotient) =
      bind-passed (add available (suc debt)) (ray_div (suc debt)) (ground arith) in
    let (exact, small) = add-passed available (suc debt) total sum in
    ray_div-le_ray (suc debt) total u small (omega arith) quotient

-- The settings for which the bound holds: the optimal utilization is over a third, and not all.
pub record IsSteep (s : InterestRate) : Type 0 where
  pub over_third : ray < 3 * s.optimal_utilization_rate
  pub not_all : s.optimal_utilization_rate < ray
  pub excess : s.excess_utilization_rate ≡ ray - s.optimal_utilization_rate
  pub rises : 0 < s.variable_rate_slope2

-- What a steep rate that is returned was computed from.
pub steep_rate_passed :
    (s : InterestRate) (u v : ℕ)
    → steep_rate s u ≡ ok v
    → (ratio : ℕ) × (slope : ℕ) × (s.optimal_utilization_rate ≤ u)
      × (ray_div (u - s.optimal_utilization_rate) s.excess_utilization_rate ≡ ok ratio)
      × (ray_mul s.variable_rate_slope2 ratio ≡ ok slope)
      × (v ≡ s.base_variable_borrow_rate + s.variable_rate_slope1 + slope)
unfolding steep_rate
steep_rate_passed s u v e =
    let base = s.base_variable_borrow_rate in
    let slope1 = s.variable_rate_slope1 in
    let slope2 = s.variable_rate_slope2 in
    let from_slope : ℕ → ℕ → Result ℕ =
      λ ratio partial. ray_mul slope2 ratio >>= λ slope. add partial slope in
    let from_ratio : ℕ → Result ℕ = λ ratio. add base slope1 >>= from_slope ratio in
    let (excess, difference, rest) =
      bind-passed (sub u s.optimal_utilization_rate)
        (λ excess. ray_div excess s.excess_utilization_rate >>= from_ratio) e in
    let (ratio, quotient, rest') =
      bind-passed (ray_div excess s.excess_utilization_rate) from_ratio rest in
    let (partial, sum, rest'') = bind-passed (add base slope1) (from_slope ratio) rest' in
    let (slope, product, last) =
      bind-passed (ray_mul slope2 ratio) (λ slope. add partial slope) rest'' in
    let (exact, enough) = sub-passed u s.optimal_utilization_rate excess difference in
    (
      ratio,
      slope,
      enough,
      ap (λ x. ray_div x s.excess_utilization_rate) (sym exact) ∙ quotient,
      product,
      omega (arith, add-passed base slope1 partial sum, add-passed partial slope v last),
    )

steep_rate_le :
    (s : InterestRate) (u v : ℕ)
    → IsSteep s
    → u ≤ ray
    → steep_rate s u ≡ ok v
    → v ≤ s.base_variable_borrow_rate + s.variable_rate_slope1 + s.variable_rate_slope2
steep_rate_le s u v w h e =
    let (ratio, slope, enough, quotient, product, total) = steep_rate_passed s u v e in
    let ratio_le =
      ray_div-le_ray (u - s.optimal_utilization_rate) s.excess_utilization_rate ratio
        (omega (arith, w.excess)) (omega (arith, w.excess)) quotient in
    omega (arith, ray_mul-le_self s.variable_rate_slope2 ratio slope ratio_le product, total)

below_next : (q s o : ℕ) → q * o < s * o + 2 * o → q ≤ s + 1
below_next q s o h = omega (arith, lt_of_mul-lt-mul_right o {m = q} {n = s + 2} (omega arith))

gentle_rate_le :
    (s : InterestRate) (u v : ℕ)
    → IsSteep s
    → u ≤ s.optimal_utilization_rate
    → gentle_rate s u ≡ ok v
    → v ≤ s.base_variable_borrow_rate + s.variable_rate_slope1 + s.variable_rate_slope2
unfolding gentle_rate
gentle_rate_le s u v w h e =
    let base = s.base_variable_borrow_rate in
    let slope1 = s.variable_rate_slope1 in
    let optimal = s.optimal_utilization_rate in
    let (slope, product, rest) =
      bind-passed (ray_mul u slope1) (λ slope. ray_div slope optimal >>= λ scaled. add base scaled)
        e in
    let (scaled, quotient, last) =
      bind-passed (ray_div slope optimal) (λ scaled. add base scaled) rest in
    let scaled_le = below_next scaled slope1 optimal (
      omega (
        arith,
        mul-le-mul u slope1 optimal slope1 h (omega arith),
        ray_mul_nearest u slope1 slope product,
        ray_div_nearest slope optimal scaled (omega (arith, w.not_all)) quotient,
        w.over_third,
      )) in
    omega (arith, scaled_le, w.rises, add-passed base scaled v last)

pub variable_borrow_rate_le :
    (s : InterestRate) (available debt u v : ℕ)
    → IsSteep s
    → utilization available debt ≡ ok u
    → variable_borrow_rate s u ≡ ok v
    → v ≤ s.base_variable_borrow_rate + s.variable_rate_slope1 + s.variable_rate_slope2
unfolding variable_borrow_rate
variable_borrow_rate_le s available debt u v w h e =
    elim (Bool-cases (ltb s.optimal_utilization_rate u)) [
      | inl above ↦ steep_rate_le s u v w (utilization-le_ray available debt u h) (rw above at e)
      | inr within ↦ gentle_rate_le s u v w (ground arith) (rw within at e)
    ]

-- What the rates that are returned were computed from.
pub calculate_interest_rates_passed :
    (s : InterestRate) (available debt factor liquidity v : ℕ)
    → calculate_interest_rates s available debt factor ≡ ok (liquidity, v)
    → (u : ℕ) × (utilization available debt ≡ ok u)
      × (variable_borrow_rate s u ≡ ok v)
      × (liquidity_rate debt v u factor ≡ ok liquidity)
unfolding calculate_interest_rates
calculate_interest_rates_passed s available debt factor liquidity v e =
    let finish : ℕ → ℕ → Result (ℕ × ℕ) =
      λ u current. liquidity_rate debt current u factor >>= λ rate. ok (rate, current) in
    let (u, used, rest) =
      bind-passed (utilization available debt)
        (λ u. variable_borrow_rate s u >>= λ current. finish u current) e in
    let (current, rate, rest') = bind-passed (variable_borrow_rate s u) (finish u) rest in
    let (earned, income, last) =
      bind-passed (liquidity_rate debt current u factor) (λ rate. ok (rate, current)) rest' in
    let same_rate : current ≡ v = ap (λ r. r.1) (ok-injective last) in
    let same_income : earned ≡ liquidity = ap (λ r. r.0) (ok-injective last) in
    (
      u,
      used,
      rate ∙ ap ok same_rate,
      ap (λ x. liquidity_rate debt x u factor) (sym same_rate) ∙ income ∙ ap ok same_income,
    )

-- Where the optimal utilization is above a third and below all, the excess utilization is the rest,
-- and the second slope is not 0, a borrow rate that is returned is at most the maximal rate that
-- the contract returns.
pub calculate_interest_rates_le :
    (s : InterestRate) (available debt factor liquidity v most : ℕ)
    → IsSteep s
    → calculate_interest_rates s available debt factor ≡ ok (liquidity, v)
    → get_max_variable_borrow_rate s ≡ ok most
    → v ≤ most
unfolding get_max_variable_borrow_rate
calculate_interest_rates_le s available debt factor liquidity v most w e m =
    let (u, used, rate, _) =
      calculate_interest_rates_passed s available debt factor liquidity v e in
    let (partial, sum, whole) =
      bind-passed (add s.base_variable_borrow_rate s.variable_rate_slope1)
        (λ partial. add partial s.variable_rate_slope2) m in
    omega (
      arith,
      variable_borrow_rate_le s available debt u v w used rate,
      add-passed s.base_variable_borrow_rate s.variable_rate_slope1 partial sum,
      add-passed partial s.variable_rate_slope2 most whole,
    )
