-- ===== src/Contracts/Interest/Bounds.antt =====
-- The interest of MathUtils fits in a word for every rate and every time that the pool can store: a
-- rate below 2 ^ 128 is less than 2 ^ 104 per second, and a time has 40 bits.
use lender.Common.{ℕ, ◌+◌, ◌-◌, ◌*◌, ◌/◌, ◌^◌, ◌≤◌, ◌<◌, ◌≡◌, refl, arith}
use lender.Constants.{max_uint_amount}
use lender.Contracts.Checked.Laws.{mul-ok, mul-le-mul}
use lender.Contracts.Math.{ray}
use lender.Contracts.Math
use lender.Contracts.Interest.{second_term, third_term}
use lender.Failure.{ok}
use lender.Reference.Agreement.{products_agree}
use lender.Reference.Math.{ray_mul}

pub ray_mul-ok : (a b : ℕ) → a * b + ray / 2 ≤ max_uint_amount → Math.ray_mul a b ≡ ok (ray_mul a b)
ray_mul-ok a b h = ground (arith, products_agree a b)

ray_mul-lt : (a b m : ℕ) → a * b + ray / 2 < m * ray → ray_mul a b < m
unfolding ray_mul
ray_mul-lt a b m h = omega arith

-- The square and the cube of a rate per second.
square_le : (r : ℕ) → r < 2 ^ 104 → r * r ≤ 2 ^ 208
square_le r h = mul-le-mul r r (2 ^ 104) (2 ^ 104) (omega arith) (omega arith)

pub square_small : (r : ℕ) → r < 2 ^ 104 → ray_mul r r < 2 ^ 119
square_small r h = ray_mul-lt r r (2 ^ 119) (omega (arith, square_le r h))

pub square-ok : (r : ℕ) → r < 2 ^ 104 → Math.ray_mul r r ≡ ok (ray_mul r r)
square-ok r h = ray_mul-ok r r (omega (arith, square_le r h))

cube_le : (r : ℕ) → r < 2 ^ 104 → ray_mul r r * r ≤ 2 ^ 223
cube_le r h =
    mul-le-mul (ray_mul r r) r (2 ^ 119) (2 ^ 104) (omega (arith, square_small r h)) (omega arith)

pub cube_small : (r : ℕ) → r < 2 ^ 104 → ray_mul (ray_mul r r) r < 2 ^ 134
cube_small r h = ray_mul-lt (ray_mul r r) r (2 ^ 134) (omega (arith, cube_le r h))

pub cube-ok : (r : ℕ) → r < 2 ^ 104 → Math.ray_mul (ray_mul r r) r ≡ ok (ray_mul (ray_mul r r) r)
cube-ok r h = ray_mul-ok (ray_mul r r) r (omega (arith, cube_le r h))

pub second_term-ok :
    (e b : ℕ) → e < 2 ^ 40 → b < 2 ^ 119 → second_term e (e - 1) b ≡ ok (e * (e - 1) * b / 2)
unfolding second_term
second_term-ok e b h k =
    let pairs = mul-le-mul e (e - 1) (2 ^ 40) (2 ^ 40) (omega arith) (omega arith) in
    let product =
      mul-le-mul (e * (e - 1)) b (2 ^ 80) (2 ^ 119) (omega (arith, pairs)) (omega arith) in
    rw (mul-ok e (e - 1) (omega (arith, pairs)), mul-ok (e * (e - 1)) b (omega (arith, product)))
      refl

pub third_term-ok :
    (e f b : ℕ)
    → e < 2 ^ 40
    → f < 2 ^ 40
    → b < 2 ^ 134
    → third_term e (e - 1) f b ≡ ok (e * (e - 1) * f * b / 6)
unfolding third_term
third_term-ok e f b h l k =
    let pairs = mul-le-mul e (e - 1) (2 ^ 40) (2 ^ 40) (omega arith) (omega arith) in
    let triples =
      mul-le-mul (e * (e - 1)) f (2 ^ 80) (2 ^ 40) (omega (arith, pairs)) (omega arith) in
    let product =
      mul-le-mul (e * (e - 1) * f) b (2 ^ 120) (2 ^ 134) (omega (arith, triples)) (omega arith) in
    rw
      (
        mul-ok e (e - 1) (omega (arith, pairs)),
        mul-ok (e * (e - 1)) f (omega (arith, triples)),
        mul-ok (e * (e - 1) * f) b (omega (arith, product)),
      )
      refl
