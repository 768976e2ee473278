-- ===== src/Tasks/Full/Gateways.antt =====
-- tasks/full: weth-gateway.ts, punk-gateway.ts, wrapper-gateway.ts, swap-adapter.ts and
-- bend-collector.ts. `chain_id` says whether
-- `DRE.network.config.chainId` is there.
use lender.Common.{String, [], ◌∷◌, Bool, ◌==◌, none, some, if◌then◌else◌}
use lender.Configuration.{
  load_pool_config, get_wrapped_native_token_address, get_crypto_punks_market_address,
  get_wrapped_punk_token_address,
}
use lender.Constants.{address_id_weth_gateway, address_id_punk_gateway}
use lender.Deploy.{
  Node, get_lend_pool_addresses_provider, contract_at, raw_insert_contract_address_in_db,
}
use lender.Deployments.{Factories, text}
use lender.Deployments.Gateways.{
  deploy_weth_gateway, deploy_punk_gateway, deploy_wrapper_gateway_impl,
  deploy_uniswap_v3_debt_swap_adapter, deploy_bend_collector, deploy_bend_upgradeable_proxy,
}
use lender.Deployments.Implementations.{returned}
use lender.Failure.{Action, thrown, pure, fail, ◌>>=◌, ◌>>◌}
use lender.Getters.{value_address, get_wrapper_gateway}
use lender.Getters.Periphery.{get_weth_gateway, get_punk_gateway, get_bend_collector_proxy}
use lender.Networks.{Environment}
use lender.Tasks.Full.{
  ProviderCalls, ContractCalls, own_deployments, upgrade_or_deploy, usable_proxy_admin,
  found_or_zero,
}
use lender.Types.ContractId.{
  contract_text, bend_proxy_admin_pool, bend_proxy_admin_wtl, bend_proxy_admin_fund, weth_gateway,
  punk_gateway, uniswap_v3_debt_swap_adapter, bend_collector,
}
use lender.Utils.Address.{AddressChecks}

module _ {W : Type 0} (env : Environment) (node : Node W) (factories : Factories W)
    (checks : AddressChecks) (calls : ContractCalls W) where
  -- `if (!DRE.network.config.chainId) throw new Error("INVALID_CHAIN_ID")`
  unfoldable pub require_chain_id : Bool → Action W (Unit {0})
  require_chain_id chain_id = if chain_id then pure tt else fail (thrown "INVALID_CHAIN_ID")

  module _ (chain_id : Bool) (provider : ProviderCalls W) where
    -- `full:deploy-weth-gateway`: it never looks for a proxy that is there.
    unfoldable pub deploy_weth_gateway_task : String → Bool → Action W (Unit {0})
    deploy_weth_gateway_task pool verify = do
      require_chain_id chain_id
      pool_config ← returned (load_pool_config pool)
      addresses_provider ← get_lend_pool_addresses_provider node
      proxy_admin ←
          usable_proxy_admin node factories checks calls (contract_text bend_proxy_admin_pool)
            "Invalid pool proxy admin in config"
      proxy_owner ← calls.owner proxy_admin
      weth ← get_wrapped_native_token_address env (own_deployments node factories) pool_config
      impl ← deploy_weth_gateway node factories verify
      proxy ←
          upgrade_or_deploy node factories checks calls (contract_text weth_gateway) none
            proxy_admin proxy_owner impl.address
            (calls.encode "WETHGateway" "initialize" (text addresses_provider ∷ text weth ∷ []))
            verify (λ address. pure tt)
      gateway ← get_weth_gateway node proxy
      provider.set_address addresses_provider address_id_weth_gateway gateway

    -- `full:deploy-punk-gateway`: it never looks for a proxy that is there.
    unfoldable pub deploy_punk_gateway_task : String → Bool → Action W (Unit {0})
    deploy_punk_gateway_task pool verify = do
      require_chain_id chain_id
      pool_config ← returned (load_pool_config pool)
      addresses_provider ← get_lend_pool_addresses_provider node
      proxy_admin ←
          usable_proxy_admin node factories checks calls (contract_text bend_proxy_admin_pool)
            "Invalid pool proxy admin in config"
      proxy_owner ← calls.owner proxy_admin
      weth_gateway_address ← get_weth_gateway node ""
      punk ← get_crypto_punks_market_address env (own_deployments node factories) pool_config
      wpunk ←
          get_wrapped_punk_token_address env (own_deployments node factories) checks pool_config
            (some punk)
      impl ← deploy_punk_gateway node factories verify
      proxy ←
          upgrade_or_deploy node factories checks calls (contract_text punk_gateway) none
            proxy_admin proxy_owner impl.address
            (calls.encode "PunkGateway" "initialize"
              (text addresses_provider ∷ text weth_gateway_address ∷ text punk ∷ text wpunk ∷ []))
            verify (λ address. pure tt)
      gateway ← get_punk_gateway node proxy
      provider.set_address addresses_provider address_id_punk_gateway gateway

    -- `full:deploy-wrapper-gateway`
    unfoldable pub deploy_wrapper_gateway_task :
        String → String → String → String → Bool → Action W (Unit {0})
    deploy_wrapper_gateway_task pool gatewayid underlying wrapper verify = do
      require_chain_id chain_id
      pool_config ← returned (load_pool_config pool)
      addresses_provider ← get_lend_pool_addresses_provider node
      proxy_admin ←
          usable_proxy_admin node factories checks calls (contract_text bend_proxy_admin_wtl)
            "Invalid common proxy admin in config"
      proxy_owner ← calls.owner proxy_admin
      weth_gateway_address ← get_weth_gateway node ""
      impl ← deploy_wrapper_gateway_impl node factories gatewayid verify
      wrapper_gateway_address ← found_or_zero node factories checks calls gatewayid
      proxy ←
          upgrade_or_deploy node factories checks calls gatewayid (some wrapper_gateway_address)
            proxy_admin proxy_owner impl.address
            (calls.encode "WrapperGateway" "initialize" (
              text addresses_provider
              ∷ text weth_gateway_address
              ∷ text underlying
              ∷ text wrapper
              ∷ []))
            verify (λ address. pure tt)
      _ ← get_wrapper_gateway node gatewayid proxy
      pure tt

    -- `full:deploy-uniswapv3-debtswap-adapter`
    unfoldable pub deploy_swap_adapter_task : String → String → String → Bool → Action W (Unit {0})
    deploy_swap_adapter_task pool aave_address_provider swap_router verify = do
      require_chain_id chain_id
      pool_config ← returned (load_pool_config pool)
      addresses_provider ← get_lend_pool_addresses_provider node
      proxy_admin ←
          usable_proxy_admin node factories checks calls (contract_text bend_proxy_admin_wtl)
            "Invalid common proxy admin in config"
      proxy_owner ← calls.owner proxy_admin
      swap_adapter_address ←
          found_or_zero node factories checks calls (contract_text uniswap_v3_debt_swap_adapter)
      impl ← deploy_uniswap_v3_debt_swap_adapter node factories verify
      proxy ←
          upgrade_or_deploy node factories checks calls (contract_text uniswap_v3_debt_swap_adapter)
            (some swap_adapter_address) proxy_admin proxy_owner impl.address
            (calls.encode "UniswapV3DebtSwapAdapter" "initialize"
              (text aave_address_provider ∷ text addresses_provider ∷ text swap_router ∷ []))
            verify (λ address. pure tt)
      _ ← contract_at node proxy uniswap_v3_debt_swap_adapter
      pure tt

  -- `full:wethgateway-authorize-caller-whitelist`
  unfoldable pub authorize_weth_callers_task : String → String → String → Action W (Unit {0})
  authorize_weth_callers_task pool caller flag = do
    pool_config ← returned (load_pool_config pool)
    gateway ← get_weth_gateway node ""
    calls.authorize_caller_whitelist gateway (caller ∷ []) flag

  -- `full:punkgateway-authorize-caller-whitelist`
  unfoldable pub authorize_punk_callers_task : String → String → String → Action W (Unit {0})
  authorize_punk_callers_task pool caller flag = do
    pool_config ← returned (load_pool_config pool)
    gateway ← get_punk_gateway node ""
    calls.authorize_caller_whitelist gateway (caller ∷ []) flag

  -- `full:wrapper-authorize-caller-whitelist`
  unfoldable pub authorize_wrapper_callers_task :
      String → String → String → String → Action W (Unit {0})
  authorize_wrapper_callers_task pool id caller flag = do
    pool_config ← returned (load_pool_config pool)
    gateway ← get_wrapper_gateway node id ""
    calls.authorize_caller_whitelist gateway (caller ∷ []) flag

  -- `full:deploy-bend-collector`
  unfoldable pub deploy_bend_collector_task : String → Bool → Action W (Unit {0})
  deploy_bend_collector_task pool verify = do
    pool_config ← returned (load_pool_config pool)
    proxy_admin ← value_address node (contract_text bend_proxy_admin_fund)
    proxy_owner ← calls.owner proxy_admin
    impl ← deploy_bend_collector node factories verify
    _ ←
        deploy_bend_upgradeable_proxy node factories (contract_text bend_collector) proxy_admin
          impl.address (calls.encode "BendCollector" "initialize" []) verify
    pure tt

  -- `full:upgrade-bend-collector`
  unfoldable pub upgrade_bend_collector_task : String → String → String → Bool → Action W (Unit {0})
  upgrade_bend_collector_task pool proxy init_func verify = do
    pool_config ← returned (load_pool_config pool)
    proxy_admin ← value_address node (contract_text bend_proxy_admin_fund)
    proxy_owner ← calls.owner proxy_admin
    _ ← get_bend_collector_proxy node proxy
    impl ← deploy_bend_collector node factories verify
    raw_insert_contract_address_in_db node (contract_text bend_collector) proxy
    (if init_func == ""
        then calls.upgrade proxy_owner proxy_admin proxy impl.address
        else calls.upgrade_and_call proxy_owner proxy_admin proxy impl.address
            (calls.encode "BendCollector" init_func []))
