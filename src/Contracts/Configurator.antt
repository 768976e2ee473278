-- ===== src/Contracts/Configurator.antt =====
-- contracts/protocol/LendPoolConfigurator.sol and contracts/libraries/logic/ConfiguratorLogic.sol: the
-- configuration of NFTs and reserves in batches, and the flags. Events are not modelled.
pub mod Word
pub mod Acceptance
pub mod Batch
pub mod Reserves
pub mod Recorded
pub mod Borrowing
pub mod Pausing
pub mod Settings
pub mod Reachable
use lender.Common.{
  ℕ, String, Bool, true, false, List, [], ◌∷◌, leb, eqb, if◌then◌else◌, ◌==◌, ◌||◌, not,
}
use lender.Constants.{percentage_factor}
use lender.Contracts.NftConfiguration.{
  set_bounded, get_bits, put_bits, bit_of, set_ltv, set_liquidation_threshold,
  set_liquidation_bonus, set_redeem_duration, set_auction_duration, set_redeem_fine,
  set_redeem_threshold, set_min_bid_fine, set_active, set_frozen,
}
use lender.Contracts.Pool.{
  Pool, set_nft_configuration, set_nft_max_supply_and_token_id, set_nft_max_collateral_cap,
  set_reserve_configuration, set_reserve_max_utilization_rate, set_pause, set_paused_time,
}
use lender.Failure.{Failure, reverted, Result, ok, err, Action, atomic, ◌>>=◌, ◌>>◌}
use lender.Types.ProtocolError.{
  ProtocolError, lpc_invalid_configuration, caller_not_pool_admin, caller_not_risk_or_pool_admin,
  lpc_caller_not_emergency_admin, rc_invalid_reserve_factor, lpc_nft_liquidity_not_0,
}

-- `ConfigTypes.ConfigNftInput`
pub record ConfigNftInput : Type 0 where
  pub asset : String
  pub base_ltv : ℕ
  pub liquidation_threshold : ℕ
  pub liquidation_bonus : ℕ
  pub redeem_duration : ℕ
  pub auction_duration : ℕ
  pub redeem_fine : ℕ
  pub redeem_threshold : ℕ
  pub min_bid_fine : ℕ
  pub max_supply : ℕ
  pub max_token_id : ℕ
  pub max_collateral_cap : ℕ

-- `ConfigTypes.ConfigReserveInput`
pub record ConfigReserveInput : Type 0 where
  pub asset : String
  pub reserve_factor : ℕ
  pub max_utilization_rate : ℕ

-- `require(condition, error)`
abbrev pub require {ℓ} : {S : Type ℓ} → Bool → ProtocolError → Action S (Unit {0})
require condition error s = if condition then (ok tt, s) else (err (reverted error), s)

-- The setters of one round of `executeBatchConfigNft`, on the word in memory.
unfoldable pub configure_word : ConfigNftInput → Action ℕ (Unit {0})
configure_word input = do
  set_ltv input.base_ltv
  set_liquidation_threshold input.liquidation_threshold
  set_liquidation_bonus input.liquidation_bonus
  set_redeem_duration input.redeem_duration
  set_auction_duration input.auction_duration
  set_redeem_fine input.redeem_fine
  set_redeem_threshold input.redeem_threshold
  set_min_bid_fine input.min_bid_fine

-- The two requirements on the collateral parameters.
unfoldable pub check_collateral : ConfigNftInput → Action Pool (Unit {0})
check_collateral input = do
  require (leb input.base_ltv input.liquidation_threshold) lpc_invalid_configuration
  (if not (eqb input.liquidation_threshold 0)
      then require (leb input.liquidation_bonus percentage_factor) lpc_invalid_configuration
      else require (eqb input.liquidation_bonus 0) lpc_invalid_configuration)

-- What a round writes to the pool once the word is made.
abbrev pub write_nft : ConfigNftInput → ℕ → Pool → Pool
write_nft input word pool = set_nft_max_collateral_cap input.asset input.max_collateral_cap (
    set_nft_max_supply_and_token_id input.asset input.max_supply input.max_token_id
      (set_nft_configuration input.asset word pool))

-- What a round does once its requirements hold.
unfoldable pub store_nft : ConfigNftInput → Action Pool (Unit {0})
store_nft input pool =
    let (r, word) = configure_word input ((pool.nfts input.asset).configuration) in
    elim r [ ok _ ↦ (ok tt, write_nft input word pool) | err e ↦ (err e, pool) ]

-- One round of `executeBatchConfigNft`.
unfoldable pub config_nft : ConfigNftInput → Action Pool (Unit {0})
config_nft input = check_collateral input >> store_nft input

-- `executeBatchConfigNft`
pub execute_batch_config_nft : List ConfigNftInput → Action Pool (Unit {0})
execute_batch_config_nft [] pool = (ok tt, pool)
execute_batch_config_nft (input ∷ inputs) pool =
    let (r, pool') = config_nft input pool in
    elim r [ ok _ ↦ execute_batch_config_nft inputs pool' | err e ↦ (err e, pool') ]

abbrev pub only_pool_admin : String → Action Pool (Unit {0})
only_pool_admin sender pool = require (pool.pool_admin == sender) caller_not_pool_admin pool

abbrev pub only_risk_or_pool_admin : String → Action Pool (Unit {0})
only_risk_or_pool_admin sender pool =
    require (pool.risk_admin == sender || pool.pool_admin == sender) caller_not_risk_or_pool_admin
      pool

abbrev pub only_emergency_admin : String → Action Pool (Unit {0})
only_emergency_admin sender pool =
    require (pool.emergency_admin == sender) lpc_caller_not_emergency_admin pool

-- `batchConfigNft`, as a transaction of `sender`
unfoldable pub batch_config_nft : String → List ConfigNftInput → Action Pool (Unit {0})
batch_config_nft sender inputs = atomic (only_pool_admin sender >> execute_batch_config_nft inputs)

-- `setReserveFactor` of contracts/libraries/configuration/ReserveConfiguration.sol
unfoldable pub set_reserve_factor : ℕ → Action ℕ (Unit {0})
set_reserve_factor = set_bounded 64 16 65535 (reverted rc_invalid_reserve_factor)

-- `setBorrowingEnabled` of contracts/libraries/configuration/ReserveConfiguration.sol
unfoldable pub set_borrowing_enabled : Bool → ℕ → ℕ
set_borrowing_enabled enabled word = put_bits word 58 1 (bit_of enabled)

-- `getReserveFactor` of contracts/libraries/configuration/ReserveConfiguration.sol
unfoldable pub get_reserve_factor : ℕ → ℕ
get_reserve_factor word = get_bits word 64 16

-- `getBorrowingEnabled` of contracts/libraries/configuration/ReserveConfiguration.sol
unfoldable pub get_borrowing_enabled : ℕ → Bool
get_borrowing_enabled word = not (eqb (get_bits word 58 1) 0)

-- One round of `executeBatchConfigReserve`.
unfoldable pub config_reserve : ConfigReserveInput → Action Pool (Unit {0})
config_reserve input pool =
    let (r, word) =
      set_reserve_factor input.reserve_factor ((pool.reserves input.asset).configuration) in
    elim r [
      | ok _ ↦ (
        ok tt,
        set_reserve_max_utilization_rate input.asset input.max_utilization_rate
            (set_reserve_configuration input.asset word pool),
      )
      | err e ↦ (err e, pool)
    ]

-- `executeBatchConfigReserve`
pub execute_batch_config_reserve : List ConfigReserveInput → Action Pool (Unit {0})
execute_batch_config_reserve [] pool = (ok tt, pool)
execute_batch_config_reserve (input ∷ inputs) pool =
    let (r, pool') = config_reserve input pool in
    elim r [ ok _ ↦ execute_batch_config_reserve inputs pool' | err e ↦ (err e, pool') ]

-- `batchConfigReserve`, as a transaction of `sender`
unfoldable pub batch_config_reserve : String → List ConfigReserveInput → Action Pool (Unit {0})
batch_config_reserve sender inputs =
    atomic (only_pool_admin sender >> execute_batch_config_reserve inputs)

-- The loop of `setBorrowingFlagOnReserve`; both branches of its test set the flag to its value.
unfoldable pub set_borrowing_flags : List String → Bool → Pool → Pool
set_borrowing_flags [] flag pool = pool
set_borrowing_flags (asset ∷ assets) flag pool = set_borrowing_flags assets flag (
    set_reserve_configuration asset
      (set_borrowing_enabled (if flag then true else false) ((pool.reserves asset).configuration))
      pool)

-- `setBorrowingFlagOnReserve`, as a transaction of `sender`
unfoldable pub set_borrowing_flag_on_reserve : String → List String → Bool → Action Pool (Unit {0})
set_borrowing_flag_on_reserve sender assets flag =
    atomic (only_risk_or_pool_admin sender >> λ pool. (ok tt, set_borrowing_flags assets flag pool))

-- `setPoolPause`, as a transaction of `sender`
unfoldable pub set_pool_pause : String → Bool → Action Pool (Unit {0})
set_pool_pause sender val = atomic (only_emergency_admin sender >> set_pause val)

-- `setPoolPausedTime`, as a transaction of `sender`
unfoldable pub set_pool_paused_time : String → ℕ → ℕ → Action Pool (Unit {0})
set_pool_paused_time sender start_time duration_time =
    atomic (
      only_emergency_admin sender >> λ pool. (ok tt, set_paused_time start_time duration_time pool))
