-- ===== src/Getters/Periphery.antt =====
-- helpers/contracts-getters.ts: the getters of gateways, data providers and stand-ins. Each gives the contract at the address
-- that it is called with, or at the one on file where that is undefined or empty.
use lender.Common.{String}
use lender.Deploy.{Node, contract_at}
use lender.Failure.{Action}
use lender.Types.ContractId.{
  bend_collector, bend_collector_impl, bend_protocol_data_provider, chainlink_aggregator_helper,
  chainlink_aggregator_helper_impl, crypto_punks_market, ierc20_detailed, ierc721_detailed,
  mintable_erc20, mintable_erc721, mock_chainlink_oracle, mock_incentives_controller,
  mock_nft_oracle, mock_reserve_oracle, punk_gateway, punk_gateway_impl, selfdestruct_transfer_mock,
  ui_pool_data_provider, uniswap_v3_debt_swap_adapter, uniswap_v3_debt_swap_adapter_impl,
  wallet_balance_provider, weth_gateway, weth_gateway_impl, weth_mocked, wrapped_punk,
}

module _ {W : Type 0} (node : Node W) where
  -- `getMockChainlinkOracle`
  unfoldable pub get_mock_chainlink_oracle : String → Action W String
  get_mock_chainlink_oracle address = contract_at node address mock_chainlink_oracle

  -- `getChainlinkAggregatorHelper`
  unfoldable pub get_chainlink_aggregator_helper : String → Action W String
  get_chainlink_aggregator_helper address = contract_at node address chainlink_aggregator_helper

  -- `getChainlinkAggregatorHelperImpl`
  unfoldable pub get_chainlink_aggregator_helper_impl : String → Action W String
  get_chainlink_aggregator_helper_impl address =
      contract_at node address chainlink_aggregator_helper_impl

  -- `getMockReserveOracle`
  unfoldable pub get_mock_reserve_oracle : String → Action W String
  get_mock_reserve_oracle address = contract_at node address mock_reserve_oracle

  -- `getMockNFTOracle`
  unfoldable pub get_mock_nft_oracle : String → Action W String
  get_mock_nft_oracle address = contract_at node address mock_nft_oracle

  -- `getMintableERC20`
  unfoldable pub get_mintable_erc20 : String → Action W String
  get_mintable_erc20 address = contract_at node address mintable_erc20

  -- `getMintableERC721`
  unfoldable pub get_mintable_erc721 : String → Action W String
  get_mintable_erc721 address = contract_at node address mintable_erc721

  -- `getIErc20Detailed`
  unfoldable pub get_ierc20_detailed : String → Action W String
  get_ierc20_detailed address = contract_at node address ierc20_detailed

  -- `getIErc721Detailed`
  unfoldable pub get_ierc721_detailed : String → Action W String
  get_ierc721_detailed address = contract_at node address ierc721_detailed

  -- `getBendProtocolDataProvider`
  unfoldable pub get_bend_protocol_data_provider : String → Action W String
  get_bend_protocol_data_provider address = contract_at node address bend_protocol_data_provider

  -- `getUIPoolDataProvider`
  unfoldable pub get_ui_pool_data_provider : String → Action W String
  get_ui_pool_data_provider address = contract_at node address ui_pool_data_provider

  -- `getWETHGateway`
  unfoldable pub get_weth_gateway : String → Action W String
  get_weth_gateway address = contract_at node address weth_gateway

  -- `getWETHGatewayImpl`
  unfoldable pub get_weth_gateway_impl : String → Action W String
  get_weth_gateway_impl address = contract_at node address weth_gateway_impl

  -- `getWETHMocked`
  unfoldable pub get_weth_mocked : String → Action W String
  get_weth_mocked address = contract_at node address weth_mocked

  -- `getSelfdestructTransferMock`
  unfoldable pub get_selfdestruct_transfer_mock : String → Action W String
  get_selfdestruct_transfer_mock address = contract_at node address selfdestruct_transfer_mock

  -- `getWalletProvider`
  unfoldable pub get_wallet_provider : String → Action W String
  get_wallet_provider address = contract_at node address wallet_balance_provider

  -- `getCryptoPunksMarket`
  unfoldable pub get_crypto_punks_market : String → Action W String
  get_crypto_punks_market address = contract_at node address crypto_punks_market

  -- `getWrappedPunk`
  unfoldable pub get_wrapped_punk : String → Action W String
  get_wrapped_punk address = contract_at node address wrapped_punk

  -- `getPunkGateway`
  unfoldable pub get_punk_gateway : String → Action W String
  get_punk_gateway address = contract_at node address punk_gateway

  -- `getPunkGatewayImpl`
  unfoldable pub get_punk_gateway_impl : String → Action W String
  get_punk_gateway_impl address = contract_at node address punk_gateway_impl

  -- `getMockIncentivesController`
  unfoldable pub get_mock_incentives_controller : String → Action W String
  get_mock_incentives_controller address = contract_at node address mock_incentives_controller

  -- `getBendCollectorProxy`
  unfoldable pub get_bend_collector_proxy : String → Action W String
  get_bend_collector_proxy address = contract_at node address bend_collector

  -- `getBendCollectorImpl`
  unfoldable pub get_bend_collector_impl : String → Action W String
  get_bend_collector_impl address = contract_at node address bend_collector_impl

  -- `getUniswapV3DebtSwapAdapter`
  unfoldable pub get_uniswap_v3_debt_swap_adapter : String → Action W String
  get_uniswap_v3_debt_swap_adapter address = contract_at node address uniswap_v3_debt_swap_adapter

  -- `getUniswapV3DebtSwapAdapterImpl`
  unfoldable pub get_uniswap_v3_debt_swap_adapter_impl : String → Action W String
  get_uniswap_v3_debt_swap_adapter_impl address =
      contract_at node address uniswap_v3_debt_swap_adapter_impl
