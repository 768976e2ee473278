-- ===== src/Contracts/Configurator/Settings.antt =====
-- contracts/protocol/LendPoolConfigurator.sol: the transactions that set one thing for a list of
-- assets. Events are not modelled.
use lender.Common.{ℕ, String, Bool, not, ◌&&◌, List, [], ◌∷◌, leb, eqb, if◌then◌else◌}
use lender.Constants.{percentage_factor}
use lender.Contracts.Configurator.{
  require, only_pool_admin, only_risk_or_pool_admin, set_reserve_factor,
}
use lender.Contracts.NftConfiguration.{
  put_bits, bit_of, set_ltv, set_liquidation_threshold, set_liquidation_bonus, set_redeem_duration,
  set_auction_duration, set_redeem_fine, set_redeem_threshold, set_min_bid_fine, set_active,
  set_frozen,
}
use lender.Contracts.Pool.{
  Pool, set_nft_configuration, set_nft_max_supply_and_token_id, set_nft_max_collateral_cap,
  set_reserve_configuration, set_reserve_max_utilization_rate, set_reserve_interest_rate_address,
}
use lender.Failure.{Action, ok, err, atomic, ◌>>◌}
use lender.Types.ProtocolError.{
  lpc_invalid_configuration, lpc_reserve_liquidity_not_0, lpc_nft_liquidity_not_0,
}

-- The loop over the assets; the first round that reverts ends it.
abbrev pub for_each : (String → Action Pool (Unit {0})) → List String → Action Pool (Unit {0})
for_each f [] pool = (ok tt, pool)
for_each f (asset ∷ assets) pool = (f asset >> for_each f assets) pool

-- A round that reads the word of an asset, changes it and writes it back.
abbrev pub on_nft_word : Action ℕ (Unit {0}) → String → Action Pool (Unit {0})
on_nft_word change asset pool =
    let (r, word) = change ((pool.nfts asset).configuration) in
    elim r [ ok _ ↦ (ok tt, set_nft_configuration asset word pool) | err e ↦ (err e, pool) ]

abbrev pub on_reserve_word : Action ℕ (Unit {0}) → String → Action Pool (Unit {0})
on_reserve_word change asset pool =
    let (r, word) = change ((pool.reserves asset).configuration) in
    elim r [ ok _ ↦ (ok tt, set_reserve_configuration asset word pool) | err e ↦ (err e, pool) ]

-- `setActive` and `setFrozen` of contracts/libraries/configuration/ReserveConfiguration.sol
unfoldable pub set_reserve_active : Bool → ℕ → ℕ
set_reserve_active active word = put_bits word 56 1 (bit_of active)

unfoldable pub set_reserve_frozen : Bool → ℕ → ℕ
set_reserve_frozen frozen word = put_bits word 57 1 (bit_of frozen)

-- `_checkReserveNoLiquidity`, given the balances of the asset
abbrev pub check_reserve_no_liquidity : (String → ℕ) → String → Action Pool (Unit {0})
check_reserve_no_liquidity balance_of asset pool =
    require
      (eqb (balance_of (pool.reserves asset).b_token_address) 0
        && eqb (pool.reserves asset).current_liquidity_rate 0)
      lpc_reserve_liquidity_not_0 pool

-- The words that the rounds below make.
unfoldable pub collateral_word : ℕ → ℕ → ℕ → Action ℕ (Unit {0})
collateral_word ltv threshold bonus = do
  require (leb ltv threshold) lpc_invalid_configuration
  (if not (eqb threshold 0)
      then require (leb bonus percentage_factor) lpc_invalid_configuration
      else require (eqb bonus 0) lpc_invalid_configuration)
  set_ltv ltv
  set_liquidation_threshold threshold
  set_liquidation_bonus bonus

unfoldable pub auction_word : ℕ → ℕ → ℕ → Action ℕ (Unit {0})
auction_word redeem_duration auction_duration redeem_fine = do
  require (leb redeem_duration auction_duration) lpc_invalid_configuration
  set_redeem_duration redeem_duration
  set_auction_duration auction_duration
  set_redeem_fine redeem_fine

-- The transactions: those of the pool admin, and those of the risk admin too. What other contracts
-- answer, the balances of an asset and the collateral of the loans, is given with them.
pub data Setting : Type 0 where
  active_flag_on_reserve : (String → String → ℕ) → Bool → Setting
  freeze_flag_on_reserve : Bool → Setting
  reserve_factor : ℕ → Setting
  reserve_interest_rate_address : String → Setting
  reserve_max_utilization_rate : ℕ → Setting
  active_flag_on_nft : (String → ℕ) → Bool → Setting
  freeze_flag_on_nft : Bool → Setting
  nft_as_collateral : ℕ → ℕ → ℕ → Setting
  nft_as_auction : ℕ → ℕ → ℕ → Setting
  nft_redeem_threshold : ℕ → Setting
  nft_min_bid_fine : ℕ → Setting
  nft_max_supply_and_token_id : ℕ → ℕ → Setting
  nft_max_collateral_cap : ℕ → Setting

-- The modifier of each.
abbrev pub allowed : Setting → String → Action Pool (Unit {0})
allowed (freeze_flag_on_reserve flag) = only_risk_or_pool_admin
allowed (reserve_max_utilization_rate rate) = only_risk_or_pool_admin
allowed (freeze_flag_on_nft flag) = only_risk_or_pool_admin
allowed (nft_max_supply_and_token_id supply id) = only_risk_or_pool_admin
allowed (nft_max_collateral_cap most) = only_risk_or_pool_admin
allowed (active_flag_on_reserve balances flag) = only_pool_admin
allowed (reserve_factor factor) = only_pool_admin
allowed (reserve_interest_rate_address address) = only_pool_admin
allowed (active_flag_on_nft collateral flag) = only_pool_admin
allowed (nft_as_collateral ltv threshold bonus) = only_pool_admin
allowed (nft_as_auction redeem auction fine) = only_pool_admin
allowed (nft_redeem_threshold threshold) = only_pool_admin
allowed (nft_min_bid_fine fine) = only_pool_admin

-- The round of each for one asset.
unfoldable pub setting_round : Setting → String → Action Pool (Unit {0})
setting_round (active_flag_on_reserve balances flag) asset = do
  (if not flag then check_reserve_no_liquidity (balances asset) asset else λ pool. (ok tt, pool))
  on_reserve_word (λ word. (ok tt, set_reserve_active flag word)) asset
setting_round (freeze_flag_on_reserve flag) asset =
    on_reserve_word (λ word. (ok tt, set_reserve_frozen flag word)) asset
setting_round (reserve_factor factor) asset = on_reserve_word (set_reserve_factor factor) asset
setting_round (reserve_interest_rate_address address) asset =
    λ pool. (ok tt, set_reserve_interest_rate_address asset address pool)
setting_round (reserve_max_utilization_rate rate) asset =
    λ pool. (ok tt, set_reserve_max_utilization_rate asset rate pool)
setting_round (active_flag_on_nft collateral flag) asset = do
  (if not flag then require (eqb (collateral asset) 0) lpc_nft_liquidity_not_0 else λ pool.
      (ok tt, pool))
  on_nft_word (λ word. (ok tt, set_active flag word)) asset
setting_round (freeze_flag_on_nft flag) asset =
    on_nft_word (λ word. (ok tt, set_frozen flag word)) asset
setting_round (nft_as_collateral ltv threshold bonus) asset =
    on_nft_word (collateral_word ltv threshold bonus) asset
setting_round (nft_as_auction redeem auction fine) asset =
    on_nft_word (auction_word redeem auction fine) asset
setting_round (nft_redeem_threshold threshold) asset =
    on_nft_word (set_redeem_threshold threshold) asset
setting_round (nft_min_bid_fine fine) asset = on_nft_word (set_min_bid_fine fine) asset
setting_round (nft_max_supply_and_token_id supply id) asset =
    λ pool. (ok tt, set_nft_max_supply_and_token_id asset supply id pool)
setting_round (nft_max_collateral_cap most) asset =
    λ pool. (ok tt, set_nft_max_collateral_cap asset most pool)

-- A transaction of `sender` for a list of assets.
unfoldable pub set_for_assets : Setting → String → List String → Action Pool (Unit {0})
set_for_assets setting sender assets =
    atomic (allowed setting sender >> for_each (setting_round setting) assets)
