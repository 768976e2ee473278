-- ===== src/Tests/Arithmetic.antt =====
-- The theorems on the arithmetic of the contracts and of the tests, at amounts of the WETH reserve.
use lender.Common.{ℕ, ◌+◌, ◌-◌, ◌*◌, ◌/◌, ◌^◌, ◌≤◌, ◌≡◌, refl, some, arith}
use lender.Constants.{one_year}
use lender.Contracts.Checked.{add, sub, mul}
use lender.Contracts.Interest
use lender.Contracts.InterestRate
use lender.Contracts.InterestRate.Bounds.{calculate_interest_rates_le}
use lender.Contracts.Math
use lender.Contracts.Math.{ray, wad, percentage_factor}
use lender.Contracts.Math.Rounding.{scaled_round_trip}
use lender.Contracts.ReserveLogic.{
  Indexes, update_indexes, accumulate, next_liquidity_index, next_variable_borrow_index,
  get_normalized_debt,
}
use lender.Contracts.ReserveLogic.Growth.{IsSound, Grown, update_indexes_grows}
use lender.Contracts.Tokens.{debt_token_balance_of}
use lender.Failure.{ok, reverted}
use lender.Markets.Bend.{bend_config}
use lender.Markets.Reserves.{strategy_weth}
use lender.Reference.Accrual.{compounded_interest_agrees}
use lender.Reference.Agreement.{where_fits, of_quotient, products_agree, quotients_agree}
use lender.Reference.Balances.{variable_debt_agrees}
use lender.Reference.Interest as Expected_interest
use lender.Reference.Math as Expected
use lender.Reference.Rates.{calc_expected_interest_rates}
use lender.Reference.Rates.Agreement.{interest_rates_agree}
use lender.Reference.Reserves.{
  ReserveData, UserReserveData, calc_expected_variable_debt_token_balance,
}
use lender.Types.ProtocolError.{math_multiplication_overflow}

products_agree_example :
    (Math.wad_mul (3 * wad) (2 * ray)
      ≡ where_fits
          (3 * wad * (2 * ray) + wad / 2)
          (reverted math_multiplication_overflow)
          (Expected.wad_mul (3 * wad) (2 * ray)))
    × (Math.ray_mul (3 * wad) (2 * ray)
        ≡ where_fits
            (3 * wad * (2 * ray) + ray / 2)
            (reverted math_multiplication_overflow)
            (Expected.ray_mul (3 * wad) (2 * ray)))
    × (Math.percent_mul (3 * wad) (2 * ray)
        ≡ where_fits
            (3 * wad * (2 * ray) + percentage_factor / 2)
            (reverted math_multiplication_overflow)
            (Expected.percent_mul (3 * wad) (2 * ray)))
products_agree_example = products_agree (3 * wad) (2 * ray)

quotients_agree_example :
    (Math.wad_div (3 * wad) 7 ≡ of_quotient (3 * wad * wad + 3) (Expected.wad_div (3 * wad) 7))
    × (Math.ray_div (3 * wad) 7 ≡ of_quotient (3 * wad * ray + 3) (Expected.ray_div (3 * wad) 7))
    × (Math.percent_div (3 * wad) 7
        ≡ of_quotient (3 * wad * percentage_factor + 3) (Expected.percent_div (3 * wad) 7))
quotients_agree_example = quotients_agree (3 * wad) 7 (omega arith)

-- A million units at the index 1.1.
scaled_round_trip_example :
    (2 * ray * 1000000 ≤ 2 * ray * 1000000 + 11 * 10 ^ 26 + ray)
    × (2 * ray * 1000000 ≤ 2 * ray * 1000000 + 11 * 10 ^ 26 + ray)
unfolding Math.ray_div Math.ray_mul add mul
scaled_round_trip_example =
    scaled_round_trip 1000000 (11 * 10 ^ 26) 909091 1000000 (omega arith) refl refl

-- Five percent a year, over a thousand seconds.
compounded_interest_agrees_example :
    (v : ℕ) × (Interest.calculate_compounded_interest (5 * 10 ^ 25) 1000 2000 ≡ ok v)
    × (Expected_interest.calc_compounded_interest (5 * 10 ^ 25) 2000 1000 ≡ some v)
    × (ray + 5 * 10 ^ 25 / one_year * (2000 - 1000) ≤ v)
compounded_interest_agrees_example =
    compounded_interest_agrees (5 * 10 ^ 25) 1000 2000 (omega arith) (omega arith) (omega arith)

abbrev a_reserve : Indexes
a_reserve = record {
  liquidity_index = ray;
  variable_borrow_index = ray;
  current_liquidity_rate = 3 * 10 ^ 25;
  current_variable_borrow_rate = 5 * 10 ^ 25;
  last_update_timestamp = 1000;
}

a_reserve-IsSound : IsSound a_reserve
a_reserve-IsSound = record {
  liquidity_from = omega arith;
  liquidity_to = omega arith;
  variable_from = omega arith;
  variable_to = omega arith;
  liquidity_rate_to = omega arith;
  variable_rate_to = omega arith;
  time_to = omega arith;
}

abbrev a_reserve_later : Indexes
a_reserve_later = record {
  liquidity_index = 1000000951293759512937595129;
  variable_borrow_index = 1000001585490854820639858500;
  current_liquidity_rate = 3 * 10 ^ 25;
  current_variable_borrow_rate = 5 * 10 ^ 25;
  last_update_timestamp = 2000;
}

update_indexes_grows_example : Grown a_reserve 2000 a_reserve_later
unfolding update_indexes accumulate next_liquidity_index next_variable_borrow_index
    Interest.calculate_linear_interest Interest.calculate_compounded_interest Interest.compound
    Interest.second_term Interest.third_term Math.ray_mul add sub mul
update_indexes_grows_example =
    update_indexes_grows a_reserve 2000 a_reserve-IsSound (omega arith) (omega arith) wad
      a_reserve_later refl

abbrev expected_reserve : ReserveData
expected_reserve = record {
  address = "0xweth";
  symbol = "WETH";
  decimals = 18;
  total_liquidity = 100 * wad;
  available_liquidity = 20 * wad;
  total_variable_debt = 80 * wad;
  scaled_variable_debt = 80 * wad;
  variable_borrow_rate = 5 * 10 ^ 25;
  utilization_rate = 8 * 10 ^ 26;
  liquidity_index = ray;
  variable_borrow_index = ray;
  b_token_address = "0xbweth";
  last_update_timestamp = 1000;
  liquidity_rate = 3 * 10 ^ 25;
}

abbrev a_user : UserReserveData
a_user = record {
  scaled_b_token_balance = wad;
  current_b_token_balance = wad;
  current_variable_debt = wad;
  scaled_variable_debt = wad;
  liquidity_rate = 3 * 10 ^ 25;
  wallet_balance = 0;
}

variable_debt_agrees_example :
    calc_expected_variable_debt_token_balance expected_reserve a_user 2000
    ≡ some 1000001585490854821
unfolding debt_token_balance_of get_normalized_debt Interest.calculate_compounded_interest
    Interest.compound Interest.second_term Interest.third_term Math.ray_mul add sub mul
variable_debt_agrees_example =
    variable_debt_agrees a_reserve expected_reserve a_user 2000 1000001585490854821
      a_reserve-IsSound
      record {
        liquidity_rate = refl;
        liquidity_index = refl;
        variable_rate = refl;
        variable_index = refl;
        time = refl;
      }
      (omega arith) (omega arith) refl

-- The rates of WETH where four fifths of the liquidity is lent.
abbrev weth_rates : InterestRate.InterestRate
weth_rates = record {
  optimal_utilization_rate = 65 * 10 ^ 25;
  excess_utilization_rate = 35 * 10 ^ 25;
  base_variable_borrow_rate = 3 * 10 ^ 25;
  variable_rate_slope1 = 8 * 10 ^ 25;
  variable_rate_slope2 = ray;
}

calculate_interest_rates_le_example : 538571428571428571428571429 ≤ 1110000000000000000000000000
unfolding InterestRate.calculate_interest_rates InterestRate.utilization
    InterestRate.variable_borrow_rate InterestRate.steep_rate InterestRate.liquidity_rate
    InterestRate.get_overall_borrow_rate InterestRate.get_max_variable_borrow_rate Math.ray_mul
    Math.ray_div Math.percent_mul Math.wad_to_ray add sub mul
calculate_interest_rates_le_example =
    calculate_interest_rates_le weth_rates (20 * wad) (80 * wad) 3000 301600000000000000000000000
      538571428571428571428571429 1110000000000000000000000000
      record { over_third = omega arith; not_all = omega arith; excess = refl; rises = omega arith }
      refl refl

interest_rates_agree_example :
    calc_expected_interest_rates bend_config.reserves_config "WETH" (8 * 10 ^ 26) (80 * wad)
    ≡ some (301600000000000000000000000, 538571428571428571428571429)
unfolding InterestRate.calculate_interest_rates InterestRate.utilization
    InterestRate.variable_borrow_rate InterestRate.steep_rate InterestRate.liquidity_rate
    InterestRate.get_overall_borrow_rate InterestRate.set_interest_rate_params Math.ray_mul
    Math.ray_div Math.percent_mul Math.wad_to_ray add sub mul
interest_rates_agree_example =
    interest_rates_agree weth_rates bend_config.reserves_config "WETH" strategy_weth (20 * wad)
      (80 * wad) (8 * 10 ^ 26) 301600000000000000000000000 538571428571428571428571429 refl refl
      refl (omega arith) refl
