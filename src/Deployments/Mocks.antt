-- ===== src/Deployments/Mocks.antt =====
-- helpers/contracts-deployments.ts: stand-ins for tokens, NFTs and oracles on test networks.
use lender.Common.{String, Bool, ℕ, [], ◌∷◌}
use lender.Db.{ContractInstance}
use lender.Deploy.{Node}
use lender.Deployments.{Factories, text, number, deploy_and_save}
use lender.Failure.{Action}
use lender.Types.ContractId.{
  contract_text, crypto_punks_market, mintable_erc20, mintable_erc721, mock_chainlink_oracle,
  mock_incentives_controller, mock_loan_repaid_interceptor, mock_nft_oracle, mock_reserve_oracle,
  selfdestruct_transfer_mock, weth, weth_mocked, wrapped_punk,
}

module _ {W : Type 0} (node : Node W) (factories : Factories W) where
  -- `deployMockReserveOracle`
  unfoldable pub deploy_mock_reserve_oracle : Bool → Action W ContractInstance
  deploy_mock_reserve_oracle =
      deploy_and_save node factories "MockReserveOracle" [] [] (contract_text mock_reserve_oracle)

  -- `deployMockChainlinkOracle`
  unfoldable pub deploy_mock_chainlink_oracle : ℕ → Bool → Action W ContractInstance
  deploy_mock_chainlink_oracle decimals =
      deploy_and_save node factories "MockChainlinkOracle" [] (number decimals ∷ [])
        (contract_text mock_chainlink_oracle)

  -- `deployMockNFTOracle`
  unfoldable pub deploy_mock_nft_oracle : Bool → Action W ContractInstance
  deploy_mock_nft_oracle =
      deploy_and_save node factories "MockNFTOracle" [] [] (contract_text mock_nft_oracle)

  -- `deployMintableERC20`
  unfoldable pub deploy_mintable_erc20 : String → String → ℕ → Bool → Action W ContractInstance
  deploy_mintable_erc20 name symbol decimals =
      deploy_and_save node factories "MintableERC20" []
        (text name ∷ text symbol ∷ number decimals ∷ []) (contract_text mintable_erc20)

  -- `deployMintableERC721`
  unfoldable pub deploy_mintable_erc721 : String → String → Bool → Action W ContractInstance
  deploy_mintable_erc721 name symbol =
      deploy_and_save node factories "MintableERC721" [] (text name ∷ text symbol ∷ [])
        (contract_text mintable_erc721)

  -- `deployWETH9`
  unfoldable pub deploy_weth9 : Bool → Action W ContractInstance
  deploy_weth9 = deploy_and_save node factories "WETH9" [] [] (contract_text weth)

  -- `deployWETHMocked`
  unfoldable pub deploy_weth_mocked : Bool → Action W ContractInstance
  deploy_weth_mocked =
      deploy_and_save node factories "WETH9Mocked" [] [] (contract_text weth_mocked)

  -- `deploySelfdestructTransferMock`
  unfoldable pub deploy_selfdestruct_transfer_mock : Bool → Action W ContractInstance
  deploy_selfdestruct_transfer_mock =
      deploy_and_save node factories "SelfdestructTransfer" [] []
        (contract_text selfdestruct_transfer_mock)

  -- `deployCryptoPunksMarket`
  unfoldable pub deploy_crypto_punks_market : Bool → Action W ContractInstance
  deploy_crypto_punks_market =
      deploy_and_save node factories "CryptoPunksMarket" [] [] (contract_text crypto_punks_market)

  -- `deployWrappedPunk`
  unfoldable pub deploy_wrapped_punk : String → Bool → Action W ContractInstance
  deploy_wrapped_punk punks_market =
      deploy_and_save node factories "WrappedPunk" [] (text punks_market ∷ [])
        (contract_text wrapped_punk)

  -- `deployMockIncentivesController`
  unfoldable pub deploy_mock_incentives_controller : Bool → Action W ContractInstance
  deploy_mock_incentives_controller =
      deploy_and_save node factories "MockIncentivesController" [] []
        (contract_text mock_incentives_controller)

  -- `deployMockLoanRepaidInterceptor`
  unfoldable pub deploy_mock_loan_repaid_interceptor : String → Bool → Action W ContractInstance
  deploy_mock_loan_repaid_interceptor addresses_provider =
      deploy_and_save node factories "MockLoanRepaidInterceptor" [] (text addresses_provider ∷ [])
        (contract_text mock_loan_repaid_interceptor)

  -- `deployMockERC721Underlying`
  unfoldable pub deploy_mock_erc721_underlying :
      String → String → String → Bool → Action W ContractInstance
  deploy_mock_erc721_underlying id name symbol =
      deploy_and_save node factories "MintableERC721" [] (text name ∷ text symbol ∷ []) id

  -- `deployMockERC721Wrapper`
  unfoldable pub deploy_mock_erc721_wrapper :
      String → String → String → String → Bool → Action W ContractInstance
  deploy_mock_erc721_wrapper id underlying name symbol =
      deploy_and_save node factories "MockerERC721Wrapper" []
        (text underlying ∷ text name ∷ text symbol ∷ []) id
