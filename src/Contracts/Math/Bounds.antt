-- ===== src/Contracts/Math/Bounds.antt =====
-- When the products and quotients of Math revert, and what they return otherwise: the guard of each
-- compares with a quotient, and so decides whether the whole product fits in a word.
use lender.Common.{ℕ, zero, suc, ◌+◌, ◌-◌, ◌*◌, ◌/◌, ◌≤◌, ◌<◌, ◌≡◌, leb, if◌then◌else◌, arith}
use lender.Constants.{max_uint_amount}
use lender.Contracts.Checked.{add, mul}
use lender.Contracts.Math.{mul_half_up, div_half_up}
use lender.Failure.{ok, err, reverted}
use lender.Types.ProtocolError.{math_multiplication_overflow}

pub le_quotient : (a b m : ℕ) → 0 < b → leb a (m / b) ≡ leb (a * b) m
le_quotient a b m h = grind arith

half_quotient : (one : ℕ) → 0 < one → one / 2 / one ≡ 0
half_quotient one h = grind arith

-- The product with zero, where the source returns early.
half_fits :
    (one : ℕ)
    → 0 < one
    → one ≤ max_uint_amount
    → (if leb (one / 2) max_uint_amount
        then ok (one / 2 / one)
        else err (reverted math_multiplication_overflow))
      ≡ ok 0
half_fits one h k = ground (arith, half_quotient one)

pub mul_half_up_lem :
    (one a b : ℕ)
    → 0 < one
    → one ≤ max_uint_amount
    → mul_half_up one a b ≡ (
        if leb (a * b + one / 2) max_uint_amount
        then ok ((a * b + one / 2) / one)
        else err (reverted math_multiplication_overflow))
unfolding add mul
mul_half_up_lem one zero zero h k = ground (arith, half_fits one)
mul_half_up_lem one zero (suc b) h k = ground (arith, half_fits one)
mul_half_up_lem one (suc a) zero h k = ground (arith, half_fits one)
mul_half_up_lem one (suc a) (suc b) h k =
    ground (arith, le_quotient (suc a) (suc b) (max_uint_amount - one / 2))

pub div_half_up_lem :
    (one a b : ℕ)
    → 0 < one
    → 0 < b
    → b ≤ max_uint_amount
    → div_half_up one a b ≡ (
        if leb (a * one + b / 2) max_uint_amount
        then ok ((a * one + b / 2) / b)
        else err (reverted math_multiplication_overflow))
unfolding add mul
div_half_up_lem one a b h k m = ground (arith, le_quotient a one (max_uint_amount - b / 2))
