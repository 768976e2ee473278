-- ===== src/Deployments/Protocol.antt =====
-- helpers/contracts-deployments.ts: the contracts of the protocol and its oracles.
use lender.Common.{String, Bool, [], ◌∷◌}
use lender.Db.{ContractInstance}
use lender.Deploy.{Node}
use lender.Deployments.{Factories, text, deploy_and_save, deploy_as_implementation}
use lender.Failure.{Action}
use lender.Types.ContractId.{
  contract_text, b_token, bnft, bnft_registry, bnft_registry_impl, debt_token,
  lend_pool_addresses_provider, lend_pool_addresses_provider_registry, lend_pool_loan,
  lend_pool_loan_impl, nft_oracle, nft_oracle_impl, reserve_oracle, reserve_oracle_impl,
  token_oracle, token_oracle_impl,
}

module _ {W : Type 0} (node : Node W) (factories : Factories W) where
  -- `deployLendPoolAddressesProviderRegistry`
  unfoldable pub deploy_lend_pool_addresses_provider_registry : Bool → Action W ContractInstance
  deploy_lend_pool_addresses_provider_registry =
      deploy_and_save node factories "LendPoolAddressesProviderRegistry" [] []
        (contract_text lend_pool_addresses_provider_registry)

  -- `deployLendPoolAddressesProvider`
  unfoldable pub deploy_lend_pool_addresses_provider : String → Bool → Action W ContractInstance
  deploy_lend_pool_addresses_provider market_id =
      deploy_and_save node factories "LendPoolAddressesProvider" [] (text market_id ∷ [])
        (contract_text lend_pool_addresses_provider)

  -- `deployLendPoolLoan`
  unfoldable pub deploy_lend_pool_loan : Bool → Action W ContractInstance
  deploy_lend_pool_loan =
      deploy_as_implementation node factories "LendPoolLoan" [] (contract_text lend_pool_loan_impl)
        (contract_text lend_pool_loan)

  -- `deployBNFTRegistry`
  unfoldable pub deploy_bnft_registry : Bool → Action W ContractInstance
  deploy_bnft_registry =
      deploy_as_implementation node factories "BNFTRegistry" [] (contract_text bnft_registry_impl)
        (contract_text bnft_registry)

  -- `deployReserveOracle`
  unfoldable pub deploy_reserve_oracle : Bool → Action W ContractInstance
  deploy_reserve_oracle =
      deploy_as_implementation node factories "ReserveOracle" [] (contract_text reserve_oracle_impl)
        (contract_text reserve_oracle)

  -- `deployNFTOracle`
  unfoldable pub deploy_nft_oracle : Bool → Action W ContractInstance
  deploy_nft_oracle =
      deploy_as_implementation node factories "NFTOracle" [] (contract_text nft_oracle_impl)
        (contract_text nft_oracle)

  -- `deployTokenOracle`
  unfoldable pub deploy_token_oracle : Bool → Action W ContractInstance
  deploy_token_oracle =
      deploy_as_implementation node factories "NFTOracle" [] (contract_text token_oracle_impl)
        (contract_text token_oracle)

  -- `deployGenericDebtToken`
  unfoldable pub deploy_generic_debt_token : Bool → Action W ContractInstance
  deploy_generic_debt_token =
      deploy_and_save node factories "DebtToken" [] [] (contract_text debt_token)

  -- `deployGenericBTokenImpl`
  unfoldable pub deploy_generic_b_token_impl : Bool → Action W ContractInstance
  deploy_generic_b_token_impl =
      deploy_and_save node factories "BToken" [] [] (contract_text b_token)

  -- `deployGenericBNFTImpl`
  unfoldable pub deploy_generic_bnft_impl : Bool → Action W ContractInstance
  deploy_generic_bnft_impl = deploy_and_save node factories "BNFT" [] [] (contract_text bnft)
