-- ===== src/Getters.antt =====
-- helpers/contracts-getters.ts: the contracts that a script reads from the file. A contract is given
-- as its address. `String.prototype.toUpperCase` is a parameter.
pub mod Protocol
pub mod Periphery
pub mod Aggregators
use lender.Common.{String, List, [], ◌∷◌, ◌==◌, Option, none, some, if◌then◌else◌}
use lender.Common.Dict.{Dict, insert, keys}
use lender.Db.{address_at_db}
use lender.Deploy.{Node}
use lender.Failure.{Action, ok, err, pure, ◌>>=◌, undefined_value}
use lender.Getters.Periphery.{get_mintable_erc20, get_mintable_erc721}
use lender.Types.Params.{CommonConfiguration, ReserveParams, NftParams}
use lender.Types.TokenIds.{token_contract_ids, nft_contract_ids}

module _ {W : Type 0} (node : Node W) where
  -- `db.get(id).value().address`
  unfoldable pub value_address : String → Action W String
  value_address id w = elim (node.lowdb.get id w) [
    | none ↦ (err undefined_value, w)
    | some entry ↦ (ok entry.address, w)
  ]

  -- `getBendProxyAdminById`
  unfoldable pub get_bend_proxy_admin_by_id : String → Action W String
  get_bend_proxy_admin_by_id = value_address

  -- `getAddressById`, none for undefined
  unfoldable pub get_address_by_id : String → W → Option String
  get_address_by_id = address_at_db node.lowdb

  -- `getMockERC721Underlying`
  unfoldable pub get_mock_erc721_underlying : String → String → Action W String
  get_mock_erc721_underlying id address = if address == "" then value_address id else pure address

  -- `getMockERC721Wrapper`
  unfoldable pub get_mock_erc721_wrapper : String → String → Action W String
  get_mock_erc721_wrapper id address = if address == "" then value_address id else pure address

  -- `getWrapperGateway`
  unfoldable pub get_wrapper_gateway : String → String → Action W String
  get_wrapper_gateway id address = if address == "" then value_address id else pure address

  module _ (to_upper_case : String → String) where
    -- The `reduce` of the four functions below
    unfoldable pub mocked_from :
        (String → Action W String) → List String → Dict String → Action W (Dict String)
    mocked_from connect [] acc = pure acc
    mocked_from connect (token_symbol ∷ symbols) acc = do
      address ← value_address (to_upper_case token_symbol)
      contract ← connect address
      mocked_from connect symbols (insert token_symbol contract acc)

    -- `getMockedTokens`
    unfoldable pub get_mocked_tokens : Dict ReserveParams → Action W (Dict String)
    get_mocked_tokens reserves_config =
        mocked_from (get_mintable_erc20 node) (keys reserves_config) []

    -- `getAllMockedTokens`
    unfoldable pub get_all_mocked_tokens : Action W (Dict String)
    get_all_mocked_tokens = mocked_from (get_mintable_erc20 node) token_contract_ids []

    -- `getConfigMockedNfts`
    unfoldable pub get_config_mocked_nfts : Dict NftParams → Action W (Dict String)
    get_config_mocked_nfts nfts_config =
        mocked_from (get_mintable_erc721 node) (keys nfts_config) []

    -- `getAllMockedNfts`
    unfoldable pub get_all_mocked_nfts : Action W (Dict String)
    get_all_mocked_nfts = mocked_from (get_mintable_erc721 node) nft_contract_ids []
