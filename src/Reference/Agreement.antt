-- ===== src/Reference/Agreement.antt =====
-- test/helpers/utils/math.ts against contracts/libraries/math: the contracts compute what the tests
-- expect, and revert where the exact total does not fit in a word.
use lender.Common.{
  ℕ, zero, suc, ◌+◌, ◌*◌, ◌/◌, ◌≤◌, ◌≡◌, refl, sym, ◌∙◌, leb, if◌then◌else◌, Option, none, some,
  arith,
}
use lender.Constants.{max_uint_amount}
use lender.Contracts.Checked.{add, mul, panic}
use lender.Contracts.Math.{wad, ray, percentage_factor, wad_ray_ratio}
use lender.Contracts.Math
use lender.Contracts.Math.Bounds.{mul_half_up_lem, div_half_up_lem}
use lender.Failure.Laws.{err≢ok}
use lender.Failure.{Failure, Result, ok, err, reverted}
use lender.Types.ProtocolError.{math_multiplication_overflow, math_division_by_zero}
use lender.Reference.Math as Expected

-- A value whose computation needs a total: the value where that total fits in a word.
abbrev pub where_fits : ℕ → Failure → ℕ → Result ℕ
where_fits total failure v = if leb total max_uint_amount then ok v else err failure

abbrev pub of_quotient : ℕ → Option ℕ → Result ℕ
of_quotient total none = err (reverted math_division_by_zero)
of_quotient total (some v) = where_fits total (reverted math_multiplication_overflow) v

-- The products of wads, of rays and of percentages return what the tests expect where the exact
-- product and half the unit fit in a word, and revert with MATH_MULTIPLICATION_OVERFLOW elsewhere.
pub products_agree :
    (a b : ℕ)
    → (Math.wad_mul a b
        ≡ where_fits
            (a * b + wad / 2)
            (reverted math_multiplication_overflow)
            (Expected.wad_mul a b))
      × (Math.ray_mul a b
          ≡ where_fits
              (a * b + ray / 2)
              (reverted math_multiplication_overflow)
              (Expected.ray_mul a b))
      × (Math.percent_mul a b
          ≡ where_fits
              (a * b + percentage_factor / 2)
              (reverted math_multiplication_overflow)
              (Expected.percent_mul a b))
unfolding Math.wad_mul Math.ray_mul Math.percent_mul Expected.wad_mul Expected.ray_mul
    Expected.percent_mul
products_agree a b = (
  ground (arith, mul_half_up_lem wad a b),
  ground (arith, mul_half_up_lem ray a b),
  ground (arith, mul_half_up_lem percentage_factor a b),
)

-- For a divisor of 256 bits, the quotients of wads, of rays and of percentages return what the
-- tests expect where the exact total fits in a word, revert with MATH_MULTIPLICATION_OVERFLOW where
-- it does not, and with MATH_DIVISION_BY_ZERO where the divisor is 0, for which the tests have no
-- number.
pub quotients_agree :
    (a b : ℕ)
    → b ≤ max_uint_amount
    → (Math.wad_div a b ≡ of_quotient (a * wad + b / 2) (Expected.wad_div a b))
      × (Math.ray_div a b ≡ of_quotient (a * ray + b / 2) (Expected.ray_div a b))
      × (Math.percent_div a b
          ≡ of_quotient (a * percentage_factor + b / 2) (Expected.percent_div a b))
unfolding Math.wad_div Math.ray_div Math.percent_div Expected.wad_div Expected.ray_div
    Expected.percent_div
quotients_agree a zero h = (refl, refl, refl)
quotients_agree a (suc b) h = (
  ground (arith, div_half_up_lem wad a (suc b)),
  ground (arith, div_half_up_lem ray a (suc b)),
  ground (arith, div_half_up_lem percentage_factor a (suc b)),
)

pub conversions_agree :
    (a : ℕ)
    → (Math.wad_to_ray a ≡ where_fits (a * wad_ray_ratio) panic (Expected.wad_to_ray a))
      × (Math.ray_to_wad a ≡ where_fits (wad_ray_ratio / 2 + a) panic (Expected.ray_to_wad a))
unfolding Math.wad_to_ray Math.ray_to_wad Expected.wad_to_ray Expected.ray_to_wad add mul
conversions_agree a = (ground arith, ground arith)

-- What each returns, when the contract's returns.
pub ray_mul_agrees : (a b v : ℕ) → Math.ray_mul a b ≡ ok v → v ≡ Expected.ray_mul a b
ray_mul_agrees a b v e = ground (arith, products_agree a b)

pub percent_mul_agrees : (a b v : ℕ) → Math.percent_mul a b ≡ ok v → v ≡ Expected.percent_mul a b
percent_mul_agrees a b v e = ground (arith, products_agree a b)

pub wad_to_ray_agrees :
    (a v : ℕ) → Math.wad_to_ray a ≡ ok v → (v ≡ Expected.wad_to_ray a) × (v ≤ max_uint_amount)
unfolding Expected.wad_to_ray
wad_to_ray_agrees a v e = ground (arith, conversions_agree a)

of_quotient-ok : (total v : ℕ) (o : Option ℕ) → of_quotient total o ≡ ok v → o ≡ some v
of_quotient-ok total v none e = absurd (err≢ok e)
of_quotient-ok total v (some w) e = ground arith

pub ray_div_agrees :
    (a b v : ℕ) → b ≤ max_uint_amount → Math.ray_div a b ≡ ok v → Expected.ray_div a b ≡ some v
ray_div_agrees a b v h e =
    of_quotient-ok (a * ray + b / 2) v (Expected.ray_div a b) (sym ((quotients_agree a b h).1) ∙ e)
