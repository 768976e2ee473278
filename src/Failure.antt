-- ===== src/Failure.antt =====
-- How a call can fail, and state with failure: what was done before the failure stays done.
pub mod Laws
use lender.Common.{String}
use lender.Types.ProtocolError.{ProtocolError}

-- A transaction that reverts with a code of the protocol or with another reason, an error that the
-- code throws, and the run-time error of a value that is undefined.
pub data Failure : Type 0 where
  reverted : ProtocolError → Failure
  reverted_with : String → Failure
  thrown : String → Failure
  undefined_value : Failure

pub data Result {ℓ} (A : Type ℓ) : Type ℓ where
  ok : A → Result A
  err : Failure → Result A

-- An action on a state: its result, and the state that it leaves.
abbrev pub Action {ℓ κ} : Type ℓ → Type κ → Type (ℓ ⊔ κ)
Action S A = S → Result A × S

module _ {ℓ κ} {S : Type ℓ} {A : Type κ} where
  abbrev pub pure : A → Action S A
  pure a s = (ok a, s)

  abbrev pub fail : Failure → Action S A
  fail e s = (err e, s)

infixl 5 ◌>>=◌ ◌>>◌
abbrev pub ◌>>=◌ {ℓ κ λ₁} :
    {S : Type ℓ} {A : Type κ} {B : Type λ₁} → Action S A → (A → Action S B) → Action S B
◌>>=◌ m f s = elim ((m s).0) [ ok a ↦ f a (m s).1 | err e ↦ (err e, (m s).1) ]

abbrev pub ◌>>◌ {ℓ κ} : {S : Type ℓ} {B : Type κ} → Action S (Unit {0}) → Action S B → Action S B
m >> k = m >>= λ _. k

-- A transaction that fails leaves the state as it was.
unfoldable pub atomic {ℓ κ} : {S : Type ℓ} {A : Type κ} → Action S A → Action S A
atomic m s = elim ((m s).0) [ ok a ↦ (ok a, (m s).1) | err e ↦ (err e, s) ]
