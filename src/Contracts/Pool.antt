-- ===== src/Contracts/Pool.antt =====
-- contracts/protocol/LendPool.sol: what the pool records of its assets, and the setters that the
-- configurator calls. The check that the caller is the registered configurator holds in these calls,
-- which only the configurator makes.
use lender.Common.{ℕ, String, Bool, true, false, if◌then◌else◌, ◌==◌}
use lender.Contracts.Checked.{sub}
use lender.Failure.{Action, ok, err}

-- `DataTypes.NftData`
pub record NftData : Type 0 where
  pub configuration : ℕ
  pub b_nft_address : String
  pub id : ℕ
  pub max_supply : ℕ
  pub max_token_id : ℕ
  pub max_collateral_cap : ℕ

-- `DataTypes.ReserveData`, the fields that the configuration reads or writes
pub record ReserveData : Type 0 where
  pub configuration : ℕ
  pub b_token_address : String
  pub debt_token_address : String
  pub interest_rate_address : String
  pub current_liquidity_rate : ℕ
  pub id : ℕ
  pub max_utilization_rate : ℕ

-- The pool with the roles that the addresses provider records, and the time of the block.
pub record Pool : Type 0 where
  pub nfts : String → NftData
  pub reserves : String → ReserveData
  pub is_paused : Bool
  pub pause_start_time : ℕ
  pub pause_duration_time : ℕ
  pub block_timestamp : ℕ
  pub pool_admin : String
  pub emergency_admin : String
  pub risk_admin : String

-- A write to one key of a mapping.
abbrev pub update {ℓ} : {V : Type ℓ} → (String → V) → String → V → String → V
update m k v j = if k == j then v else m j

-- `setNftConfiguration`
abbrev pub set_nft_configuration : String → ℕ → Pool → Pool
set_nft_configuration asset configuration pool = record pool {
  nfts = update pool.nfts asset (record (pool.nfts asset) { configuration = configuration });
}

-- `setNftMaxSupplyAndTokenId`
abbrev pub set_nft_max_supply_and_token_id : String → ℕ → ℕ → Pool → Pool
set_nft_max_supply_and_token_id asset max_supply max_token_id pool = record pool {
  nfts =
      update pool.nfts asset
        (record (pool.nfts asset) { max_supply = max_supply; max_token_id = max_token_id });
}

-- `setNftMaxCollateralCap`
abbrev pub set_nft_max_collateral_cap : String → ℕ → Pool → Pool
set_nft_max_collateral_cap asset max_cap pool = record pool {
  nfts = update pool.nfts asset (record (pool.nfts asset) { max_collateral_cap = max_cap });
}

-- `setReserveConfiguration`
abbrev pub set_reserve_configuration : String → ℕ → Pool → Pool
set_reserve_configuration asset configuration pool = record pool {
  reserves =
      update pool.reserves asset (record (pool.reserves asset) { configuration = configuration });
}

-- `setReserveMaxUtilizationRate`
abbrev pub set_reserve_max_utilization_rate : String → ℕ → Pool → Pool
set_reserve_max_utilization_rate asset max_util_rate pool = record pool {
  reserves =
      update pool.reserves asset
        (record (pool.reserves asset) { max_utilization_rate = max_util_rate });
}

-- `setReserveInterestRateAddress`
abbrev pub set_reserve_interest_rate_address : String → String → Pool → Pool
set_reserve_interest_rate_address asset rate_address pool = record pool {
  reserves =
      update pool.reserves asset
        (record (pool.reserves asset) { interest_rate_address = rate_address });
}

-- `a !== b` on Booleans
abbrev pub differs : Bool → Bool → Bool
differs a b = if a then (if b then false else true) else b

-- `setPause`; the duration is in checked arithmetic, which reverts where the pause begins in the
-- future.
unfoldable pub set_pause : Bool → Action Pool (Unit {0})
set_pause val pool =
    if differs pool.is_paused val
    then if val
      then (ok tt, record pool { is_paused = val; pause_start_time = pool.block_timestamp })
      else elim (sub pool.block_timestamp pool.pause_start_time) [
        | ok duration ↦ (ok tt, record pool { is_paused = val; pause_duration_time = duration })
        | err e ↦ (err e, record pool { is_paused = val })
      ]
    else (ok tt, pool)

-- `setPausedTime`
abbrev pub set_paused_time : ℕ → ℕ → Pool → Pool
set_paused_time start_time duration_time pool = record pool {
  pause_start_time = start_time;
  pause_duration_time = duration_time;
}
