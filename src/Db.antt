-- ===== src/Db.antt =====
-- helpers/contracts-helpers.ts: the record of deployed contracts in a JSON file, which the lowdb
-- package reads and writes. The file of the current network is a value of type `S`.
pub mod Laws
use Prim.Native.String
use lender.Common.{
  String, ◌≡◌, ◌≢◌, Bool, true, false, Option, none, some, if◌then◌else◌, ◌==◌, not, ◌||◌,
}
use text.Mathlib.Text.{find?}
use lender.Constants.{zero_address}
use lender.Failure.{Failure, thrown, Result, ok, err}
use lender.Networks.{Environment, get_optional_param_address_per_network}
use lender.Types.Params.{CommonConfiguration, AddressPerNetwork}
use lender.Utils.Address.{AddressChecks, not_falsy_or_zero_address}

-- `text.includes(part)`
abbrev pub contains_text : String → String → Bool
contains_text text part = elim (find? text part) [ none ↦ false | some _ ↦ true ]

pub record DbEntry : Type 0 where
  pub address : String
  pub deployer : Option String

-- Lowdb reads a key as a path, which dots and brackets take apart; a plain key has none.
abbrev pub is_plain : String → Bool
is_plain k = not (contains_text k "." || contains_text k "[")

-- `get(k).value()` and `set(k, v).write()` of the lowdb package, and what the code relies on: a key
-- that was written holds what was written, and of two plain keys that differ, a write to one leaves
-- the other.
pub record Lowdb (S : Type 0) : Type 0 where
  pub get : String → S → Option DbEntry
  pub set : String → DbEntry → S → S
  pub get-set_self : (k : String) (v : DbEntry) (s : S) → get k (set k v s) ≡ some v
  pub get-set_ne :
      (j k : String) (v : DbEntry) (s : S)
      → is_plain j ≡ true
      → is_plain k ≡ true
      → j ≢ k
      → get j (set k v s) ≡ get j s

-- A contract as it is returned by a deployment: its address, and the sender of its transaction.
pub record ContractInstance : Type 0 where
  pub address : String
  pub from : String

-- `poolConfig[id]`: the address parameter that a contract's name selects, if it selects one.
unfoldable pub config_param : CommonConfiguration → String → Option AddressPerNetwork
config_param c id =
    if id == "ProxyAdminPool"
    then some c.proxy_admin_pool
    else if id == "ProxyAdminFund"
    then some c.proxy_admin_fund
    else if id == "ProxyAdminWTL"
    then some c.proxy_admin_wtl
    else if id == "BNFTRegistry"
    then some c.bnft_registry
    else if id == "ProviderRegistry"
    then some c.provider_registry
    else if id == "ProviderRegistryOwner"
    then some c.provider_registry_owner
    else if id == "ReserveOracle"
    then some c.reserve_oracle
    else if id == "NFTOracle"
    then some c.nft_oracle
    else if id == "PoolAdmin"
    then some c.pool_admin
    else if id == "EmergencyAdmin"
    then some c.emergency_admin
    else if id == "WrappedNativeToken"
    then some c.wrapped_native_token
    else if id == "CryptoPunksMarket"
    then some c.crypto_punks_market
    else if id == "WrappedPunkToken"
    then some c.wrapped_punk_token
    else if id == "ReserveFactorCollectorAddress"
    then some c.reserve_factor_collector_address
    else if id == "IncentivesController"
    then some c.incentives_controller
    else none

abbrev pub text_or : Option String → String → String
text_or none d = d
text_or (some s) d = s

module _ {S : Type 0} (db : Lowdb S) where
  -- `registerContractInJsonDb`, without its log lines
  unfoldable pub register_contract_in_json_db : String → ContractInstance → S → S
  register_contract_in_json_db contract_id instance_ =
      db.set contract_id (record { address = instance_.address; deployer = some instance_.from })

  -- `insertContractAddressInDb` and `rawInsertContractAddressInDb`, which have one body
  unfoldable pub insert_contract_address_in_db : String → String → S → S
  insert_contract_address_in_db id address =
      db.set id (record { address = address; deployer = none })

  -- `contractAtDb?.address`, none where it is missing or empty
  unfoldable pub address_at_db : String → S → Option String
  address_at_db id s = elim (db.get id s) [
    | none ↦ none
    | some entry ↦ if entry.address == "" then none else some entry.address
  ]

  abbrev pub missing_contract : String → Failure
  missing_contract id = thrown (
      String.◌++◌ "Missing contract address "
        (String.◌++◌ id " at Market config and JSON local db"))

  -- `getContractAddressInDb`
  unfoldable pub get_contract_address_in_db : String → S → Result String
  get_contract_address_in_db id s = elim (address_at_db id s) [
    | none ↦ err (missing_contract id)
    | some address ↦ ok address
  ]

  -- `tryGetContractAddressInDb`
  unfoldable pub try_get_contract_address_in_db : String → S → String
  try_get_contract_address_in_db id s = elim (address_at_db id s) [
    | none ↦ zero_address
    | some address ↦ address
  ]

  -- `getContractAddressWithJsonFallback`: the market's address for the contract where it has a
  -- usable one, and else the one on file.
  module _ (checks : AddressChecks) (env : Environment) where
    unfoldable pub get_contract_address_with_json_fallback :
        CommonConfiguration → String → S → Result String
    get_contract_address_with_json_fallback pool_config id s =
        let market =
          get_optional_param_address_per_network env (config_param pool_config id)
            env.network_name in
        if not_falsy_or_zero_address checks market
        then ok (text_or market "")
        else get_contract_address_in_db id s
