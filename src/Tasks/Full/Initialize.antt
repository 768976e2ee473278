-- ===== src/Tasks/Full/Initialize.antt =====
-- tasks/full/initialize.ts and tasks/migrations/bend.mainnet.ts: what is done once the contracts are
-- deployed, and all of the tasks in their order.
use lender.Common.{String, List, map, Bool, true, false, none, some, if◌then◌else◌}
use lender.Common.Dict.{Dict}
use lender.Configuration.{load_pool_config, get_reserve_factor_collector_address}
use lender.Db.{text_or}
use lender.Deploy.{Node, get_lend_pool_addresses_provider}
use lender.Deployments.{Factories}
use lender.Deployments.Implementations.{returned}
use lender.Failure.{Action, thrown, pure, fail, ◌>>=◌, ◌>>◌}
use lender.Getters.Periphery.{get_weth_gateway, get_punk_gateway}
use lender.Init.Nfts.{init_nfts_by_helper, configure_nfts_by_helper}
use lender.Init.Reserves.{init_reserves_by_helper, configure_reserves_by_helper}
use lender.Networks.{Environment, get_param_per_network}
use lender.Tasks.Full.{ProviderCalls, ContractCalls}
use lender.Tasks.Full.Gateways.{
  deploy_weth_gateway_task, deploy_punk_gateway_task, deploy_bend_collector_task,
}
use lender.Tasks.Full.LendPool.{deploy_lend_pool_task}
use lender.Tasks.Full.Oracles.{deploy_oracle_reserve_task, deploy_oracle_nft_task}
use lender.Tasks.Full.Providers.{
  RegistryCalls, deploy_proxy_admin_task, deploy_address_provider_task, deploy_data_provider_task,
}
use lender.Tasks.PoolAdmin.{AdminCalls}
use lender.Types.Params.{CommonConfiguration}
use lender.Utils.Address.{AddressChecks}

module _ {W : Type 0} (env : Environment) (node : Node W) where
  -- The assets of the network, which must not be undefined
  unfoldable pub reserve_assets_of : CommonConfiguration → Action W (Dict String)
  reserve_assets_of pool_config =
      elim (get_param_per_network env pool_config.reserve_assets env.network_name) [
        | none ↦ fail (
            thrown
              "Reserve assets is undefined. Check ReserveAssets configuration at config directory")
        | some assets ↦ pure assets
      ]

  unfoldable pub nfts_assets_of : CommonConfiguration → Action W (Dict String)
  nfts_assets_of pool_config =
      elim (get_param_per_network env pool_config.nfts_assets env.network_name) [
        | none ↦
            fail
              (thrown "NFT assets is undefined. Check NftsAssets configuration at config directory")
        | some assets ↦ pure assets
      ]

  module _ (checks : AddressChecks) (admin_calls : AdminCalls W) where
    -- `full:initialize-lend-pool`; an undefined collector is the empty text, which ethers refuses as
    -- an address too.
    unfoldable pub initialize_lend_pool_task : String → Bool → Action W (Unit {0})
    initialize_lend_pool_task pool verify = do
      pool_config ← returned (load_pool_config pool)
      addresses_provider ← get_lend_pool_addresses_provider node
      admin ← admin_calls.get_pool_admin addresses_provider
      reserve_assets ← reserve_assets_of pool_config
      init_reserves_by_helper checks env node pool_config.reserves_config reserve_assets
          (record {
            b_token_name_prefix = pool_config.b_token_name_prefix;
            b_token_symbol_prefix = pool_config.b_token_symbol_prefix;
            debt_token_name_prefix = pool_config.debt_token_name_prefix;
            debt_token_symbol_prefix = pool_config.debt_token_symbol_prefix;
            collector_address = text_or (get_reserve_factor_collector_address env pool_config) "";
          })
          admin pool verify
      configure_reserves_by_helper node pool_config.reserves_config reserve_assets admin
      nfts_assets ← nfts_assets_of pool_config
      init_nfts_by_helper node pool_config.nfts_config nfts_assets admin pool verify
      configure_nfts_by_helper node pool_config.nfts_config nfts_assets admin

  module _ (calls : ContractCalls W) where
    -- `full:initialize-gateway`
    unfoldable pub initialize_gateway_task : String → Action W (Unit {0})
    initialize_gateway_task pool = do
      pool_config ← returned (load_pool_config pool)
      reserve_assets ← reserve_assets_of pool_config
      nfts_assets ← nfts_assets_of pool_config
      weth_gateway ← get_weth_gateway node ""
      calls.authorize_lend_pool_nft weth_gateway (map (λ entry. entry.1) nfts_assets)
      punk_gateway ← get_punk_gateway node ""
      calls.authorize_lend_pool_erc20 punk_gateway (map (λ entry. entry.1) reserve_assets)

-- The checks and tasks of `bend:mainnet` that verify contracts at Etherscan.
pub record Verifications (W : Type 0) : Type 0 where
  pub check_verification : Action W (Unit {0})
  pub verify_general : String → Action W (Unit {0})
  pub verify_reserves : String → Action W (Unit {0})
  pub verify_nfts : String → Action W (Unit {0})

module _ {W : Type 0} (env : Environment) (node : Node W) (factories : Factories W)
    (checks : AddressChecks) (calls : ContractCalls W) (signers : List String)
    (provider : ProviderCalls W) (admin_calls : AdminCalls W) (registry : RegistryCalls W)
    (verifications : Verifications W) (chain_id : Bool) where
  -- `bend:mainnet`, without the balances that it prints; the tasks run with no flag but those given.
  unfoldable pub bend_mainnet_task : Bool → Bool → Bool → Action W (Unit {0})
  bend_mainnet_task verify skip_registry skip_oracle = do
    (if verify then verifications.check_verification else pure tt)
    deploy_proxy_admin_task env node factories checks "Bend" true "" false
    deploy_bend_collector_task env node factories checks calls "Bend" false
    deploy_address_provider_task env node factories checks registry signers provider "Bend"
        skip_registry false
    deploy_lend_pool_task env node factories checks signers provider admin_calls "Bend" false
    deploy_oracle_reserve_task env node factories checks calls signers provider "Bend" skip_oracle
        false
    deploy_oracle_nft_task env node factories checks calls signers provider "Bend" skip_oracle false
        none false
    initialize_lend_pool_task env node checks admin_calls "Bend" false
    deploy_weth_gateway_task env node factories checks calls chain_id provider "Bend" false
    deploy_punk_gateway_task env node factories checks calls chain_id provider "Bend" false
    initialize_gateway_task env node calls "Bend"
    deploy_data_provider_task node factories provider true true true false
    (if verify
        then (do
          verifications.verify_general "Bend"
          verifications.verify_reserves "Bend"
          verifications.verify_nfts "Bend")
        else pure tt)
