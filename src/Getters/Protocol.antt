-- ===== src/Getters/Protocol.antt =====
-- helpers/contracts-getters.ts: the getters of the contracts of the protocol. Each gives the contract at the address
-- that it is called with, or at the one on file where that is undefined or empty.
use lender.Common.{String}
use lender.Deploy.{Node, contract_at}
use lender.Failure.{Action}
use lender.Types.ContractId.{
  b_token, bnft, bnft_registry, bnft_registry_impl, borrow_logic, configurator_logic, debt_token,
  generic_logic, interest_rate, lend_pool, lend_pool_addresses_provider,
  lend_pool_addresses_provider_registry, lend_pool_configurator, lend_pool_configurator_impl,
  lend_pool_impl, lend_pool_loan, lend_pool_loan_impl, liquidate_logic, nft_oracle, nft_oracle_impl,
  reserve_logic, reserve_oracle, reserve_oracle_impl, supply_logic, token_oracle, token_oracle_impl,
}

module _ {W : Type 0} (node : Node W) where
  -- `getLendPoolAddressesProviderRegistry`
  unfoldable pub get_lend_pool_addresses_provider_registry : String → Action W String
  get_lend_pool_addresses_provider_registry address =
      contract_at node address lend_pool_addresses_provider_registry

  -- `getLendPoolAddressesProvider`
  unfoldable pub get_lend_pool_addresses_provider_at : String → Action W String
  get_lend_pool_addresses_provider_at address =
      contract_at node address lend_pool_addresses_provider

  -- `getLendPoolConfiguratorProxy`
  unfoldable pub get_lend_pool_configurator_proxy_at : String → Action W String
  get_lend_pool_configurator_proxy_at address = contract_at node address lend_pool_configurator

  -- `getBNFTRegistryProxy`
  unfoldable pub get_bnft_registry_proxy : String → Action W String
  get_bnft_registry_proxy address = contract_at node address bnft_registry

  -- `getLendPoolLoanProxy`
  unfoldable pub get_lend_pool_loan_proxy : String → Action W String
  get_lend_pool_loan_proxy address = contract_at node address lend_pool_loan

  -- `getLendPool`
  unfoldable pub get_lend_pool : String → Action W String
  get_lend_pool address = contract_at node address lend_pool

  -- `getReserveOracle`
  unfoldable pub get_reserve_oracle : String → Action W String
  get_reserve_oracle address = contract_at node address reserve_oracle

  -- `getReserveOracleImpl`
  unfoldable pub get_reserve_oracle_impl : String → Action W String
  get_reserve_oracle_impl address = contract_at node address reserve_oracle_impl

  -- `getNFTOracle`
  unfoldable pub get_nft_oracle : String → Action W String
  get_nft_oracle address = contract_at node address nft_oracle

  -- `getNFTOracleImpl`
  unfoldable pub get_nft_oracle_impl : String → Action W String
  get_nft_oracle_impl address = contract_at node address nft_oracle_impl

  -- `getTokenOracle`
  unfoldable pub get_token_oracle : String → Action W String
  get_token_oracle address = contract_at node address token_oracle

  -- `getTokenOracleImpl`
  unfoldable pub get_token_oracle_impl : String → Action W String
  get_token_oracle_impl address = contract_at node address token_oracle_impl

  -- `getBToken`
  unfoldable pub get_b_token : String → Action W String
  get_b_token address = contract_at node address b_token

  -- `getDebtToken`
  unfoldable pub get_debt_token : String → Action W String
  get_debt_token address = contract_at node address debt_token

  -- `getBNFT`
  unfoldable pub get_bnft : String → Action W String
  get_bnft address = contract_at node address bnft

  -- `getInterestRate`
  unfoldable pub get_interest_rate : String → Action W String
  get_interest_rate address = contract_at node address interest_rate

  -- `getReserveLogic`
  unfoldable pub get_reserve_logic : String → Action W String
  get_reserve_logic address = contract_at node address reserve_logic

  -- `getGenericLogic`
  unfoldable pub get_generic_logic : String → Action W String
  get_generic_logic address = contract_at node address generic_logic

  -- `getSupplyLogic`
  unfoldable pub get_supply_logic : String → Action W String
  get_supply_logic address = contract_at node address supply_logic

  -- `getBorrowLogic`
  unfoldable pub get_borrow_logic : String → Action W String
  get_borrow_logic address = contract_at node address borrow_logic

  -- `getLiquidateLogic`
  unfoldable pub get_liquidate_logic : String → Action W String
  get_liquidate_logic address = contract_at node address liquidate_logic

  -- `getConfiguratorLogic`
  unfoldable pub get_configurator_logic : String → Action W String
  get_configurator_logic address = contract_at node address configurator_logic

  -- `getLendPoolImpl`
  unfoldable pub get_lend_pool_impl : String → Action W String
  get_lend_pool_impl address = contract_at node address lend_pool_impl

  -- `getLendPoolConfiguratorImpl`
  unfoldable pub get_lend_pool_configurator_impl : String → Action W String
  get_lend_pool_configurator_impl address = contract_at node address lend_pool_configurator_impl

  -- `getLendPoolLoanImpl`
  unfoldable pub get_lend_pool_loan_impl : String → Action W String
  get_lend_pool_loan_impl address = contract_at node address lend_pool_loan_impl

  -- `getBNFTRegistryImpl`
  unfoldable pub get_bnft_registry_impl : String → Action W String
  get_bnft_registry_impl address = contract_at node address bnft_registry_impl
