-- ===== src/Tasks/PoolAdmin.antt =====
-- tasks/misc/pool-admin.ts: the tasks of the pool's administrators that pause the pool and that
-- bring the configuration of the market to the chain. `set-DRE` and the log lines are not modelled.
pub mod Laws
pub mod Monad
pub mod Flags
use lender.Common.{String, Bool, true, false, not, Option, none, some, if◌then◌else◌}
use lender.Configuration.{load_pool_config}
use lender.Contracts.Pool.{differs}
use lender.Deploy.{Node, contract_at, get_lend_pool_addresses_provider}
use lender.Failure.{Action, Result, ok, err, thrown, pure, fail, ◌>>=◌, ◌>>◌}
use lender.Init.Nfts.{configure_nfts_by_helper}
use lender.Init.Reserves.{configure_reserves_by_helper}
use lender.Networks.{Environment, get_param_per_network}
use lender.Types.ContractId.{lend_pool, lend_pool_configurator}

-- The calls of the addresses provider, the pool and the configurator; the last is sent by the
-- signer that comes first.
pub record AdminCalls (W : Type 0) : Type 0 where
  pub get_emergency_admin : String → Action W String
  pub get_pool_admin : String → Action W String
  pub get_lend_pool_configurator : String → Action W String
  pub get_lend_pool : String → Action W String
  pub paused : String → Action W Bool
  pub set_pool_pause : String → String → Bool → Action W (Unit {0})

-- JavaScript's conversion of a text to a number: whether `state == 0`, which for a text is also
-- whether `state == false`.
pub record TextNumbers : Type 0 where
  pub is_zero : String → Bool

-- `wantPause`
abbrev pub want_pause : TextNumbers → String → Bool
want_pause numbers state = not (numbers.is_zero state)

-- `pool-admin:set-pause` from the test of the current state on
abbrev pub pause_unless_same :
    {W : Type 0} → AdminCalls W → String → String → String → Bool → Bool → Action W (Unit {0})
pause_unless_same calls em_admin configurator pool want current =
    if differs current want
    then calls.set_pool_pause em_admin configurator want
      >> (calls.paused pool >>= λ new_pause. pure tt)
    else pure tt

module _ {W : Type 0} (numbers : TextNumbers) (node : Node W) (calls : AdminCalls W) where
  -- `pool-admin:set-pause`
  unfoldable pub set_pause_task : String → String → Action W (Unit {0})
  set_pause_task pool state = do
    addresses_provider ← get_lend_pool_addresses_provider node
    em_admin ← calls.get_emergency_admin addresses_provider
    configurator_address ← calls.get_lend_pool_configurator addresses_provider
    lend_pool_configurator_proxy ← contract_at node configurator_address lend_pool_configurator
    pool_address ← calls.get_lend_pool addresses_provider
    lend_pool_proxy ← contract_at node pool_address lend_pool
    current_pause ← calls.paused lend_pool_proxy
    pause_unless_same calls em_admin lend_pool_configurator_proxy lend_pool_proxy
        (want_pause numbers state) current_pause

module _ {W : Type 0} (env : Environment) (node : Node W) (calls : AdminCalls W) where
  -- `pool-admin:update-nfts-config`
  unfoldable pub update_nfts_config : String → Action W (Unit {0})
  update_nfts_config pool = elim (load_pool_config pool) [
    | err e ↦ fail e
    | ok pool_config ↦ get_lend_pool_addresses_provider node >>= λ addresses_provider.
        calls.get_pool_admin addresses_provider >>= λ pool_admin_address.
        elim (get_param_per_network env pool_config.nfts_assets env.network_name) [
          | none ↦
              fail (
                thrown
                  "NFT assets is undefined. Check NftsAssets configuration at config directory")
          | some nfts_assets ↦
              configure_nfts_by_helper node pool_config.nfts_config nfts_assets pool_admin_address
        ]
  ]

  -- `pool-admin:update-reserves-config`
  unfoldable pub update_reserves_config : String → Action W (Unit {0})
  update_reserves_config pool = elim (load_pool_config pool) [
    | err e ↦ fail e
    | ok pool_config ↦ get_lend_pool_addresses_provider node >>= λ addresses_provider.
        calls.get_pool_admin addresses_provider >>= λ pool_admin_address.
        elim (get_param_per_network env pool_config.reserve_assets env.network_name) [
          | none ↦ fail (
              thrown
                "Reserve assets is undefined. Check ReserveAssets configuration at config directory")
          | some reserves_assets ↦
              configure_reserves_by_helper node pool_config.reserves_config reserves_assets
                pool_admin_address
        ]
  ]
