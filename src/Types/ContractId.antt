-- ===== src/Types/ContractId.antt =====
-- helpers/types.ts: the names under which contracts are deployed and registered.
use lender.Common.{String}

-- `eContractid`
pub data ContractId : Type 0 where
  mintable_erc20 : ContractId
  mintable_erc721 : ContractId
  lend_pool_addresses_provider : ContractId
  lend_pool_addresses_provider_registry : ContractId
  lend_pool_parameters_provider : ContractId
  lend_pool_configurator : ContractId
  validation_logic : ContractId
  reserve_logic : ContractId
  nft_logic : ContractId
  generic_logic : ContractId
  supply_logic : ContractId
  borrow_logic : ContractId
  liquidate_logic : ContractId
  configurator_logic : ContractId
  lend_pool : ContractId
  lend_pool_loan : ContractId
  reserve_oracle : ContractId
  reserve_oracle_impl : ContractId
  nft_oracle : ContractId
  nft_oracle_impl : ContractId
  token_oracle : ContractId
  token_oracle_impl : ContractId
  proxy : ContractId
  mock_chainlink_oracle : ContractId
  mock_nft_oracle : ContractId
  mock_reserve_oracle : ContractId
  chainlink_aggregator_helper : ContractId
  chainlink_aggregator_helper_impl : ContractId
  interest_rate : ContractId
  bend_upgradeable_proxy : ContractId
  bend_proxy_admin_test : ContractId
  bend_proxy_admin_pool : ContractId
  bend_proxy_admin_fund : ContractId
  bend_proxy_admin_wtl : ContractId
  bend_v2_proxy_admin : ContractId
  wallet_balance_provider : ContractId
  b_token : ContractId
  debt_token : ContractId
  bnft : ContractId
  mock_bnft : ContractId
  bend_protocol_data_provider : ContractId
  ierc20_detailed : ContractId
  ierc721_detailed : ContractId
  fee_provider : ContractId
  weth_gateway : ContractId
  weth_gateway_impl : ContractId
  weth : ContractId
  weth_mocked : ContractId
  wpunks_gateway : ContractId
  wpunks : ContractId
  wpunks_mocked : ContractId
  selfdestruct_transfer_mock : ContractId
  lend_pool_impl : ContractId
  lend_pool_configurator_impl : ContractId
  lend_pool_loan_impl : ContractId
  bnft_registry : ContractId
  bnft_registry_impl : ContractId
  crypto_punks_market : ContractId
  wrapped_punk : ContractId
  punk_gateway : ContractId
  punk_gateway_impl : ContractId
  mock_incentives_controller : ContractId
  ui_pool_data_provider : ContractId
  bend_collector : ContractId
  bend_collector_impl : ContractId
  timelock_controller_fast : ContractId
  timelock_controller_slow : ContractId
  mock_loan_repaid_interceptor : ContractId
  koda_gateway : ContractId
  koda_gateway_impl : ContractId
  uniswap_v3_debt_swap_adapter : ContractId
  uniswap_v3_debt_swap_adapter_impl : ContractId
  wst_eth_price_aggregator : ContractId

-- The text of each member of the enum.
abbrev pub contract_text : ContractId → String
contract_text mintable_erc20 = "MintableERC20"
contract_text mintable_erc721 = "MintableERC721"
contract_text lend_pool_addresses_provider = "LendPoolAddressesProvider"
contract_text lend_pool_addresses_provider_registry = "LendPoolAddressesProviderRegistry"
contract_text lend_pool_parameters_provider = "LendPoolParametersProvider"
contract_text lend_pool_configurator = "LendPoolConfigurator"
contract_text validation_logic = "ValidationLogic"
contract_text reserve_logic = "ReserveLogic"
contract_text nft_logic = "NftLogic"
contract_text generic_logic = "GenericLogic"
contract_text supply_logic = "SupplyLogic"
contract_text borrow_logic = "BorrowLogic"
contract_text liquidate_logic = "LiquidateLogic"
contract_text configurator_logic = "ConfiguratorLogic"
contract_text lend_pool = "LendPool"
contract_text lend_pool_loan = "LendPoolLoan"
contract_text reserve_oracle = "ReserveOracle"
contract_text reserve_oracle_impl = "ReserveOracleImpl"
contract_text nft_oracle = "NFTOracle"
contract_text nft_oracle_impl = "NFTOracleImpl"
contract_text token_oracle = "TokenOracle"
contract_text token_oracle_impl = "TokenOracleImpl"
contract_text proxy = "Proxy"
contract_text mock_chainlink_oracle = "MockChainlinkOracle"
contract_text mock_nft_oracle = "MockNFTOracle"
contract_text mock_reserve_oracle = "MockReserveOracle"
contract_text chainlink_aggregator_helper = "ChainlinkAggregatorHelper"
contract_text chainlink_aggregator_helper_impl = "ChainlinkAggregatorHelperImpl"
contract_text interest_rate = "InterestRate"
contract_text bend_upgradeable_proxy = "BendUpgradeableProxy"
contract_text bend_proxy_admin_test = "BendProxyAdminTest"
contract_text bend_proxy_admin_pool = "BendProxyAdminPool"
contract_text bend_proxy_admin_fund = "BendProxyAdminFund"
contract_text bend_proxy_admin_wtl = "BendProxyAdminWTL"
contract_text bend_v2_proxy_admin = "BendV2ProxyAdmin"
contract_text wallet_balance_provider = "WalletBalanceProvider"
contract_text b_token = "BToken"
contract_text debt_token = "DebtToken"
contract_text bnft = "BNFT"
contract_text mock_bnft = "MockBNFT"
contract_text bend_protocol_data_provider = "BendProtocolDataProvider"
contract_text ierc20_detailed = "IERC20Detailed"
contract_text ierc721_detailed = "IERC721Detailed"
contract_text fee_provider = "FeeProvider"
contract_text weth_gateway = "WETHGateway"
contract_text weth_gateway_impl = "WETHGatewayImpl"
contract_text weth = "WETH"
contract_text weth_mocked = "WETHMocked"
contract_text wpunks_gateway = "WPUNKSGateway"
contract_text wpunks = "WPUNKS"
contract_text wpunks_mocked = "WPUNKSMocked"
contract_text selfdestruct_transfer_mock = "SelfdestructTransferMock"
contract_text lend_pool_impl = "LendPoolImpl"
contract_text lend_pool_configurator_impl = "LendPoolConfiguratorImpl"
contract_text lend_pool_loan_impl = "LendPoolLoanImpl"
contract_text bnft_registry = "BNFTRegistry"
contract_text bnft_registry_impl = "BNFTRegistryImpl"
contract_text crypto_punks_market = "CryptoPunksMarket"
contract_text wrapped_punk = "WrappedPunk"
contract_text punk_gateway = "PunkGateway"
contract_text punk_gateway_impl = "PunkGatewayImpl"
contract_text mock_incentives_controller = "MockIncentivesController"
contract_text ui_pool_data_provider = "UIPoolDataProvider"
contract_text bend_collector = "BendCollector"
contract_text bend_collector_impl = "BendCollectorImpl"
contract_text timelock_controller_fast = "TimelockControllerFast"
contract_text timelock_controller_slow = "TimelockControllerSlow"
contract_text mock_loan_repaid_interceptor = "MockLoanRepaidInterceptor"
contract_text koda_gateway = "KodaGateway"
contract_text koda_gateway_impl = "KodaGatewayImpl"
contract_text uniswap_v3_debt_swap_adapter = "UniswapV3DebtSwapAdapter"
contract_text uniswap_v3_debt_swap_adapter_impl = "UniswapV3DebtSwapAdapterImpl"
contract_text wst_eth_price_aggregator = "WstETHPriceAggregator"
