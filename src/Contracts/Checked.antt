-- ===== src/Contracts/Checked.antt =====
-- The arithmetic of solidity 0.8 on `uint256`: a result that is out of range reverts with a panic.
pub mod Laws
use lender.Common.{ℕ, ◌+◌, ◌-◌, ◌*◌, Bool, leb, if◌then◌else◌}
use lender.Constants.{max_uint_amount}
use lender.Failure.{Failure, reverted, reverted_with, Result, ok, err}
use lender.Types.ProtocolError.{ProtocolError}

-- What follows a call is not run where the call reverts.
infixl 5 ◌>>=◌ ◌>>◌
abbrev pub ◌>>=◌ {ℓ κ} : {V : Type ℓ} {W : Type κ} → Result V → (V → Result W) → Result W
err failure >>= rest = err failure
ok value >>= rest = rest value

abbrev pub ◌>>◌ {κ} : {W : Type κ} → Result (Unit {0}) → Result W → Result W
first >> rest = first >>= λ _. rest

-- `Panic(0x11)`: arithmetic overflow or underflow
abbrev pub panic : Failure
panic = reverted_with "Panic(0x11)"

-- `a + b`
unfoldable pub add : ℕ → ℕ → Result ℕ
add a b = if leb (a + b) max_uint_amount then ok (a + b) else err panic

-- `a - b`
unfoldable pub sub : ℕ → ℕ → Result ℕ
sub a b = if leb b a then ok (a - b) else err panic

-- `a * b`
unfoldable pub mul : ℕ → ℕ → Result ℕ
mul a b = if leb (a * b) max_uint_amount then ok (a * b) else err panic

-- `require(condition, error)`
abbrev pub demand : Bool → ProtocolError → Result (Unit {0})
demand condition error = if condition then ok tt else err (reverted error)
