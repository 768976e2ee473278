-- ===== src/Deployments/Gateways.antt =====
-- helpers/contracts-deployments.ts: proxies, gateways, collectors and data providers.
use Prim.Native.String
use lender.Common.{String, Bool, List, [], ◌∷◌}
use lender.Db.{ContractInstance}
use lender.Deploy.{Node}
use lender.Deployments.{Factories, text, texts, deploy_and_save, deploy_as_implementation}
use lender.Failure.{Action}
use lender.Types.ContractId.{
  contract_text, bend_collector, bend_collector_impl, bend_protocol_data_provider,
  chainlink_aggregator_helper, chainlink_aggregator_helper_impl, punk_gateway, punk_gateway_impl,
  ui_pool_data_provider, uniswap_v3_debt_swap_adapter, uniswap_v3_debt_swap_adapter_impl,
  wallet_balance_provider, weth_gateway, weth_gateway_impl, wst_eth_price_aggregator,
}

module _ {W : Type 0} (node : Node W) (factories : Factories W) where
  -- `deployChainlinkAggregatorHelper`
  unfoldable pub deploy_chainlink_aggregator_helper : Bool → Action W ContractInstance
  deploy_chainlink_aggregator_helper =
      deploy_as_implementation node factories "ChainlinkAggregatorHelper" []
        (contract_text chainlink_aggregator_helper_impl) (contract_text chainlink_aggregator_helper)

  -- `deployWalletBalancerProvider`
  unfoldable pub deploy_wallet_balancer_provider : Bool → Action W ContractInstance
  deploy_wallet_balancer_provider =
      deploy_and_save node factories "WalletBalanceProvider" [] []
        (contract_text wallet_balance_provider)

  -- `deployBendProtocolDataProvider`
  unfoldable pub deploy_bend_protocol_data_provider : String → Bool → Action W ContractInstance
  deploy_bend_protocol_data_provider addresses_provider =
      deploy_and_save node factories "BendProtocolDataProvider" [] (text addresses_provider ∷ [])
        (contract_text bend_protocol_data_provider)

  -- `deployUiPoolDataProvider`
  unfoldable pub deploy_ui_pool_data_provider : String → String → Bool → Action W ContractInstance
  deploy_ui_pool_data_provider reserve_oracle_address nft_oracle_address =
      deploy_and_save node factories "UiPoolDataProvider" []
        (text reserve_oracle_address ∷ text nft_oracle_address ∷ [])
        (contract_text ui_pool_data_provider)

  -- `deployWETHGateway`
  unfoldable pub deploy_weth_gateway : Bool → Action W ContractInstance
  deploy_weth_gateway =
      deploy_as_implementation node factories "WETHGateway" [] (contract_text weth_gateway_impl)
        (contract_text weth_gateway)

  -- `deployPunkGateway`
  unfoldable pub deploy_punk_gateway : Bool → Action W ContractInstance
  deploy_punk_gateway =
      deploy_as_implementation node factories "PunkGateway" [] (contract_text punk_gateway_impl)
        (contract_text punk_gateway)

  -- `deployBendUpgradeableProxy`
  unfoldable pub deploy_bend_upgradeable_proxy :
      String → String → String → String → Bool → Action W ContractInstance
  deploy_bend_upgradeable_proxy id admin logic init_data =
      deploy_and_save node factories "BendUpgradeableProxy" []
        (text logic ∷ text admin ∷ text init_data ∷ []) id

  -- `deployBendProxyAdmin`
  unfoldable pub deploy_bend_proxy_admin : String → Bool → Action W ContractInstance
  deploy_bend_proxy_admin id = deploy_and_save node factories "BendProxyAdmin" [] [] id

  -- `deployBendCollector`
  unfoldable pub deploy_bend_collector : Bool → Action W ContractInstance
  deploy_bend_collector =
      deploy_as_implementation node factories "BendCollector" [] (contract_text bend_collector_impl)
        (contract_text bend_collector)

  -- `deployTimelockController`
  unfoldable pub deploy_timelock_controller :
      String → String → List String → List String → Bool → Action W ContractInstance
  deploy_timelock_controller id min_delay proposers executors =
      deploy_and_save node factories "TimelockController" []
        (text min_delay ∷ texts proposers ∷ texts executors ∷ []) id

  -- `deployWrapperGatewayImpl`
  unfoldable pub deploy_wrapper_gateway_impl : String → Bool → Action W ContractInstance
  deploy_wrapper_gateway_impl id =
      deploy_and_save node factories "WrapperGateway" [] [] (String.◌++◌ id "Impl")

  -- `deployWrapperGateway`
  unfoldable pub deploy_wrapper_gateway : String → Bool → Action W ContractInstance
  deploy_wrapper_gateway id =
      deploy_as_implementation node factories "WrapperGateway" [] (String.◌++◌ id "Impl") id

  -- `deployUniswapV3DebtSwapAdapter`
  unfoldable pub deploy_uniswap_v3_debt_swap_adapter : Bool → Action W ContractInstance
  deploy_uniswap_v3_debt_swap_adapter =
      deploy_as_implementation node factories "UniswapV3DebtSwapAdapter" []
        (contract_text uniswap_v3_debt_swap_adapter_impl)
        (contract_text uniswap_v3_debt_swap_adapter)

  -- `deployWstETHPriceAggregator`
  unfoldable pub deploy_wst_eth_price_aggregator :
      String → String → Bool → Action W ContractInstance
  deploy_wst_eth_price_aggregator st_eth_agg wst_eth =
      deploy_and_save node factories "WstETHPriceAggregator" []
        (text st_eth_agg ∷ text wst_eth ∷ []) (contract_text wst_eth_price_aggregator)
