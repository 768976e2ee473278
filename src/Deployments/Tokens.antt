-- ===== src/Deployments/Tokens.antt =====
-- helpers/contracts-deployments.ts: the tokens and NFTs of test networks, each registered under its
-- symbol in capital letters. `String.prototype.toUpperCase` is a parameter.
use Prim.Native.String
use lender.Common.{String, Bool, false, ◌||◌, ℕ, List, [], ◌∷◌, ◌==◌, none, some, if◌then◌else◌}
use lender.Common.Dict.{Dict, lookup, insert}
use lender.Configuration.{get_reserves_config_by_pool}
use lender.Db.{ContractInstance, register_contract_in_json_db}
use lender.Deploy.{Node}
use lender.Deployments.{Factories}
use lender.Deployments.Mocks.{
  deploy_mintable_erc20, deploy_mintable_erc721, deploy_weth9, deploy_weth_mocked,
  deploy_crypto_punks_market, deploy_wrapped_punk, deploy_mock_erc721_underlying,
  deploy_mock_erc721_wrapper,
}
use lender.Failure.{Action, ok, pure, ◌>>=◌, ◌>>◌}
use lender.Types.TokenIds.{token_contract_ids, nft_contract_ids}

-- `configData ? configData.reserveDecimals : decimals`
unfoldable pub mock_decimals : String → ℕ
mock_decimals token_symbol = elim (lookup token_symbol (get_reserves_config_by_pool "proto")) [
  | none ↦ if token_symbol == "USDT" || token_symbol == "USDC" then 6 else 18
  | some config_data ↦ config_data.reserve_decimals
]

module _ {W : Type 0} (node : Node W) (factories : Factories W)
    (to_upper_case : String → String) where
  -- `registerContractInJsonDb(tokenSymbol.toUpperCase(), token)`
  unfoldable pub register_token : String → ContractInstance → Action W (Unit {0})
  register_token token_symbol token w =
      (ok tt, register_contract_in_json_db node.lowdb (to_upper_case token_symbol) token w)

  -- `deployOneMockToken`
  unfoldable pub deploy_one_mock_token : String → Bool → Action W ContractInstance
  deploy_one_mock_token token_symbol verify = do
    token ←
        deploy_mintable_erc20 node factories (String.◌++◌ "Bend Mock " token_symbol) token_symbol
          (mock_decimals token_symbol) verify
    register_token token_symbol token
    pure token

  -- One turn of the loop of `deployAllMockTokens`
  unfoldable pub deploy_listed_token : Bool → Bool → String → Action W ContractInstance
  deploy_listed_token for_test_cases verify token_symbol =
      if token_symbol == "WETH"
      then (do
        weth ←
            (if for_test_cases
              then deploy_weth_mocked node factories false
              else deploy_weth9 node factories false)
        register_token token_symbol weth
        pure weth)
      else deploy_one_mock_token token_symbol verify

  -- One turn of the loop of `deployAllMockNfts`
  unfoldable pub deploy_listed_nft : Bool → String → Action W ContractInstance
  deploy_listed_nft verify token_symbol =
      if token_symbol == "WPUNKS"
      then (do
        crypto_punks_market ← deploy_crypto_punks_market node factories verify
        wrapped_punk ← deploy_wrapped_punk node factories crypto_punks_market.address verify
        register_token token_symbol wrapped_punk
        pure wrapped_punk)
      else if token_symbol == "WKODA"
      then (do
        mock_otherdeed ←
            deploy_mock_erc721_underlying node factories "MockOtherdeed" "Otherdeed" "OTHR" verify
        wrapped_koda ←
            deploy_mock_erc721_wrapper node factories "WrappedKoda" mock_otherdeed.address
              "Wrapped Otherdeed Koda" "WKODA" verify
        register_token token_symbol wrapped_koda
        pure wrapped_koda)
      else (do
        token ←
            deploy_mintable_erc721 node factories (String.◌++◌ "Bend Mock " token_symbol)
              token_symbol verify
        register_token token_symbol token
        pure token)

  -- The loop of both functions below: `tokens[tokenSymbol] = …`
  unfoldable pub deploy_listed :
      (String → Action W ContractInstance)
      → List String
      → Dict ContractInstance
      → Action W (Dict ContractInstance)
  deploy_listed deploy_token [] tokens = pure tokens
  deploy_listed deploy_token (token_symbol ∷ symbols) tokens = do
    token ← deploy_token token_symbol
    deploy_listed deploy_token symbols (insert token_symbol token tokens)

  -- `deployAllMockTokens`
  unfoldable pub deploy_all_mock_tokens : Bool → Bool → Action W (Dict ContractInstance)
  deploy_all_mock_tokens for_test_cases verify =
      deploy_listed (deploy_listed_token for_test_cases verify) token_contract_ids []

  -- `deployAllMockNfts`
  unfoldable pub deploy_all_mock_nfts : Bool → Action W (Dict ContractInstance)
  deploy_all_mock_nfts verify = deploy_listed (deploy_listed_nft verify) nft_contract_ids []
