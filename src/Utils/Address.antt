-- ===== src/Utils/Address.antt =====
-- helpers/misc-utils.ts, `notFalsyOrZeroAddress`.
use lender.Common.{
  String, ◌≡◌, Bool, true, false, not, Option, none, some, ◌&&◌, ◌==◌, if◌then◌else◌,
}
use lender.Constants.{zero_address}

-- `!!text` for a text that may be undefined.
abbrev pub truthy : Option String → Bool
truthy none = false
truthy (some s) = not (s == "")

-- The address checks of the ethers and ethereumjs-util packages: `isAddress`, `isZeroAddress`.
pub record AddressChecks : Type 0 where
  pub is_address : String → Bool
  pub is_zero_address : String → Bool
  pub zero_is_zero : is_zero_address zero_address ≡ true

unfoldable pub not_falsy_or_zero_address : AddressChecks → Option String → Bool
not_falsy_or_zero_address checks none = false
not_falsy_or_zero_address checks (some address) =
    if address == ""
    then false
    else checks.is_address address && not (checks.is_zero_address address)
