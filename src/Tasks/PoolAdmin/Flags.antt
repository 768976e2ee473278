-- ===== src/Tasks/PoolAdmin/Flags.antt =====
-- tasks/misc/pool-admin.ts: the tasks that set the active and the frozen flag of a reserve or an NFT.
use lender.Common.{String, Bool, if◌then◌else◌}
use lender.Contracts.Pool.{differs}
use lender.Deploy.{Node, contract_at, get_lend_pool_addresses_provider}
use lender.Failure.{Action, pure, ◌>>=◌, ◌>>◌}
use lender.Tasks.PoolAdmin.{AdminCalls, TextNumbers, want_pause}
use lender.Types.ContractId.{lend_pool_configurator, bend_protocol_data_provider}

-- The flags that the data provider at the first address gives for an asset.
pub record ConfigurationData : Type 0 where
  pub is_active : Bool
  pub is_frozen : Bool

-- The calls that these tasks make: those of the addresses provider and of the data provider, and
-- those that a signer sends to the configurator for an asset.
pub record FlagCalls (W : Type 0) : Type 0 where
  pub get_bend_data_provider : String → Action W String
  pub get_reserve_configuration_data : String → String → Action W ConfigurationData
  pub get_nft_configuration_data : String → String → Action W ConfigurationData
  pub activate_reserve : String → String → String → Action W (Unit {0})
  pub deactivate_reserve : String → String → String → Action W (Unit {0})
  pub freeze_reserve : String → String → String → Action W (Unit {0})
  pub unfreeze_reserve : String → String → String → Action W (Unit {0})
  pub activate_nft : String → String → String → Action W (Unit {0})
  pub deactivate_nft : String → String → String → Action W (Unit {0})
  pub freeze_nft : String → String → String → Action W (Unit {0})
  pub unfreeze_nft : String → String → String → Action W (Unit {0})

module _ {W : Type 0} (numbers : TextNumbers) (node : Node W) (admin_calls : AdminCalls W)
    (calls : FlagCalls W) where
  -- What the four tasks share: a flag is read, set where it is not as wanted, and read again.
  unfoldable pub set_flag_task :
      (String → String → Action W ConfigurationData)
      → (ConfigurationData → Bool)
      → (String → String → String → Action W (Unit {0}))
      → (String → String → String → Action W (Unit {0}))
      → String
      → String
      → Action W (Unit {0})
  set_flag_task get_data flag switch_on switch_off asset state = do
    addresses_provider ← get_lend_pool_addresses_provider node
    pm_admin ← admin_calls.get_pool_admin addresses_provider
    configurator_address ← admin_calls.get_lend_pool_configurator addresses_provider
    configurator ← contract_at node configurator_address lend_pool_configurator
    data_provider_address ← calls.get_bend_data_provider addresses_provider
    data_provider ← contract_at node data_provider_address bend_protocol_data_provider
    current ← get_data data_provider asset
    (if differs (flag current) (want_pause numbers state)
        then (do
          (if want_pause numbers state
              then switch_on pm_admin configurator asset
              else switch_off pm_admin configurator asset)
          _ ← get_data data_provider asset
          pure tt)
        else pure tt)

  -- `pool-admin:set-reserve-active`
  unfoldable pub set_reserve_active_task : String → String → Action W (Unit {0})
  set_reserve_active_task =
      set_flag_task calls.get_reserve_configuration_data (λ d. d.is_active) calls.activate_reserve
        calls.deactivate_reserve

  -- `pool-admin:set-reserve-frozen`
  unfoldable pub set_reserve_frozen_task : String → String → Action W (Unit {0})
  set_reserve_frozen_task =
      set_flag_task calls.get_reserve_configuration_data (λ d. d.is_frozen) calls.freeze_reserve
        calls.unfreeze_reserve

  -- `pool-admin:set-nft-active`
  unfoldable pub set_nft_active_task : String → String → Action W (Unit {0})
  set_nft_active_task =
      set_flag_task calls.get_nft_configuration_data (λ d. d.is_active) calls.activate_nft
        calls.deactivate_nft

  -- `pool-admin:set-nft-frozen`
  unfoldable pub set_nft_frozen_task : String → String → Action W (Unit {0})
  set_nft_frozen_task =
      set_flag_task calls.get_nft_configuration_data (λ d. d.is_frozen) calls.freeze_nft
        calls.unfreeze_nft
