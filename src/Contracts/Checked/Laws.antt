-- ===== src/Contracts/Checked/Laws.antt =====
-- Checked arithmetic within the range of a word, and products below powers of two.
use lender.Common.{ℕ, ◌+◌, ◌-◌, ◌*◌, ◌≤◌, ◌≡◌, refl, arith}
use lender.Constants.{max_uint_amount}
use lender.Contracts.Checked.{add, sub, mul, ◌>>=◌}
use lender.Failure.{Result, ok, err}

pub add-ok : (a b : ℕ) → a + b ≤ max_uint_amount → add a b ≡ ok (a + b)
unfolding add
add-ok a b h = ground arith

pub sub-ok : (a b : ℕ) → b ≤ a → sub a b ≡ ok (a - b)
unfolding sub
sub-ok a b h = ground arith

pub mul-ok : (a b : ℕ) → a * b ≤ max_uint_amount → mul a b ≡ ok (a * b)
unfolding mul
mul-ok a b h = ground arith

-- Widths in bits add up in a product.
pub mul-le-mul : (a b c d : ℕ) → a ≤ c → b ≤ d → a * b ≤ c * d
mul-le-mul a b c d h k = grind arith

-- A sequence that returns has a first step that returns.
module _ {ℓ κ} {V : Type ℓ} {W : Type κ} where
  pub bind-passed :
      (first : Result V) (rest : V → Result W) {w : W}
      → (first >>= rest) ≡ ok w
      → (v : V) × (first ≡ ok v) × (rest v ≡ ok w)
  bind-passed (err failure) rest h = cc
  bind-passed (ok v) rest h = (v, refl, h)

pub ok-injective {ℓ} : {A : Type ℓ} {a b : A} → ok a ≡ ok b → a ≡ b
ok-injective h = cc

pub add-passed : (a b v : ℕ) → add a b ≡ ok v → (v ≡ a + b) × (v ≤ max_uint_amount)
unfolding add
add-passed a b v e = ground arith

pub sub-passed : (a b v : ℕ) → sub a b ≡ ok v → (v ≡ a - b) × (b ≤ a)
unfolding sub
sub-passed a b v e = ground arith
