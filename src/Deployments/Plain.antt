-- ===== src/Deployments/Plain.antt =====
-- The names of the contracts are plain keys of the file.
use lender.Common.{true, ◌≡◌, refl}
use lender.Db.{is_plain}
use lender.Types.ContractId.{ContractId, contract_text}

pub contract_text-plain : (id : ContractId) → is_plain (contract_text id) ≡ true
contract_text-plain ContractId.mintable_erc20 = refl
contract_text-plain ContractId.mintable_erc721 = refl
contract_text-plain ContractId.lend_pool_addresses_provider = refl
contract_text-plain ContractId.lend_pool_addresses_provider_registry = refl
contract_text-plain ContractId.lend_pool_parameters_provider = refl
contract_text-plain ContractId.lend_pool_configurator = refl
contract_text-plain ContractId.validation_logic = refl
contract_text-plain ContractId.reserve_logic = refl
contract_text-plain ContractId.nft_logic = refl
contract_text-plain ContractId.generic_logic = refl
contract_text-plain ContractId.supply_logic = refl
contract_text-plain ContractId.borrow_logic = refl
contract_text-plain ContractId.liquidate_logic = refl
contract_text-plain ContractId.configurator_logic = refl
contract_text-plain ContractId.lend_pool = refl
contract_text-plain ContractId.lend_pool_loan = refl
contract_text-plain ContractId.reserve_oracle = refl
contract_text-plain ContractId.reserve_oracle_impl = refl
contract_text-plain ContractId.nft_oracle = refl
contract_text-plain ContractId.nft_oracle_impl = refl
contract_text-plain ContractId.token_oracle = refl
contract_text-plain ContractId.token_oracle_impl = refl
contract_text-plain ContractId.proxy = refl
contract_text-plain ContractId.mock_chainlink_oracle = refl
contract_text-plain ContractId.mock_nft_oracle = refl
contract_text-plain ContractId.mock_reserve_oracle = refl
contract_text-plain ContractId.chainlink_aggregator_helper = refl
contract_text-plain ContractId.chainlink_aggregator_helper_impl = refl
contract_text-plain ContractId.interest_rate = refl
contract_text-plain ContractId.bend_upgradeable_proxy = refl
contract_text-plain ContractId.bend_proxy_admin_test = refl
contract_text-plain ContractId.bend_proxy_admin_pool = refl
contract_text-plain ContractId.bend_proxy_admin_fund = refl
contract_text-plain ContractId.bend_proxy_admin_wtl = refl
contract_text-plain ContractId.bend_v2_proxy_admin = refl
contract_text-plain ContractId.wallet_balance_provider = refl
contract_text-plain ContractId.b_token = refl
contract_text-plain ContractId.debt_token = refl
contract_text-plain ContractId.bnft = refl
contract_text-plain ContractId.mock_bnft = refl
contract_text-plain ContractId.bend_protocol_data_provider = refl
contract_text-plain ContractId.ierc20_detailed = refl
contract_text-plain ContractId.ierc721_detailed = refl
contract_text-plain ContractId.fee_provider = refl
contract_text-plain ContractId.weth_gateway = refl
contract_text-plain ContractId.weth_gateway_impl = refl
contract_text-plain ContractId.weth = refl
contract_text-plain ContractId.weth_mocked = refl
contract_text-plain ContractId.wpunks_gateway = refl
contract_text-plain ContractId.wpunks = refl
contract_text-plain ContractId.wpunks_mocked = refl
contract_text-plain ContractId.selfdestruct_transfer_mock = refl
contract_text-plain ContractId.lend_pool_impl = refl
contract_text-plain ContractId.lend_pool_configurator_impl = refl
contract_text-plain ContractId.lend_pool_loan_impl = refl
contract_text-plain ContractId.bnft_registry = refl
contract_text-plain ContractId.bnft_registry_impl = refl
contract_text-plain ContractId.crypto_punks_market = refl
contract_text-plain ContractId.wrapped_punk = refl
contract_text-plain ContractId.punk_gateway = refl
contract_text-plain ContractId.punk_gateway_impl = refl
contract_text-plain ContractId.mock_incentives_controller = refl
contract_text-plain ContractId.ui_pool_data_provider = refl
contract_text-plain ContractId.bend_collector = refl
contract_text-plain ContractId.bend_collector_impl = refl
contract_text-plain ContractId.timelock_controller_fast = refl
contract_text-plain ContractId.timelock_controller_slow = refl
contract_text-plain ContractId.mock_loan_repaid_interceptor = refl
contract_text-plain ContractId.koda_gateway = refl
contract_text-plain ContractId.koda_gateway_impl = refl
contract_text-plain ContractId.uniswap_v3_debt_swap_adapter = refl
contract_text-plain ContractId.uniswap_v3_debt_swap_adapter_impl = refl
contract_text-plain ContractId.wst_eth_price_aggregator = refl
