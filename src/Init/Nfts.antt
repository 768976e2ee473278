-- ===== src/Init/Nfts.antt =====
-- helpers/init-helpers.ts: `initNftsByHelper`, `getBNftExtraParams` and `configureNftsByHelper`.
pub mod Configured
pub mod Listed
use lender.Common.{
  zero, suc, String, Bool, true, false, List, [], ◌∷◌, Option, none, some, if◌then◌else◌,
}
use lender.Common.Dict.{Dict, lookup}
use lender.Deploy.{
  Node, InitNftInput, ConfigNftArgs, each, get_lend_pool_addresses_provider,
  get_lend_pool_configurator_proxy,
}
use lender.Failure.{Action, ok, pure, ◌>>=◌, ◌>>◌}
use lender.Types.Params.{NftParams, NumericText, plain, negative}
use lender.Utils.Address.{truthy}
use lender.Utils.Chunk.{chunk}
use lender.Db.{text_or}

-- `getBNftExtraParams`
unfoldable pub get_bnft_extra_params : String → String → String
get_bnft_extra_params b_nft_name nft_address = "0x10"

-- The loop of `initNftsByHelper` over the entries of the market's parameters.
pub init_nft_inputs : Dict NftParams → Dict String → List InitNftInput
init_nft_inputs [] nft_addresses = []
init_nft_inputs ((symbol, params) ∷ nfts) nft_addresses =
    let inputs = init_nft_inputs nfts nft_addresses in
    if truthy (lookup symbol nft_addresses)
    then record { underlying_asset = text_or (lookup symbol nft_addresses) "" } ∷ inputs
    else inputs

-- `baseLTVAsCollateral === "-1"`
abbrev pub is_minus_one : NumericText → Bool
is_minus_one (plain n) = false
is_minus_one (negative zero) = true
is_minus_one (negative (suc n)) = false

-- The argument for one NFT.
abbrev pub config_nft_args : String → NftParams → ConfigNftArgs
config_nft_args token_address params = record {
  asset = token_address;
  base_ltv = params.base_ltv_as_collateral;
  liquidation_threshold = params.liquidation_threshold;
  liquidation_bonus = params.liquidation_bonus;
  redeem_duration = params.redeem_duration;
  auction_duration = params.auction_duration;
  redeem_fine = params.redeem_fine;
  redeem_threshold = params.redeem_threshold;
  min_bid_fine = params.min_bid_fine;
  max_supply = params.max_supply;
  max_token_id = params.max_token_id;
  max_collateral_cap = 100;
}

-- The loop of `configureNftsByHelper`; an address that is found is that of its entry.
pub config_nft_inputs : Dict NftParams → Dict String → List ConfigNftArgs
config_nft_inputs [] nft_addresses = []
config_nft_inputs ((asset_symbol, params) ∷ nfts) nft_addresses =
    let inputs = config_nft_inputs nfts nft_addresses in
    if truthy (lookup asset_symbol nft_addresses)
    then if is_minus_one params.base_ltv_as_collateral
      then inputs
      else config_nft_args (text_or (lookup asset_symbol nft_addresses) "") params ∷ inputs
    else inputs

abbrev pub nonempty {ℓ} : {A : Type ℓ} → List A → Bool
nonempty [] = false
nonempty (x ∷ xs) = true

module _ {W : Type 0} (node : Node W) where
  -- `initNftsByHelper`
  unfoldable pub init_nfts_by_helper :
      Dict NftParams → Dict String → String → String → Bool → Action W (Unit {0})
  init_nfts_by_helper nfts_params nft_addresses admin pool_name verify = do
    address_provider ← get_lend_pool_addresses_provider node
    bnft_registry ← node.get_bnft_registry address_provider
    configurator ← get_lend_pool_configurator_proxy node
    each (node.batch_init_nft configurator) (chunk (init_nft_inputs nfts_params nft_addresses) 1)

  -- The end of `configureNftsByHelper`: nothing is sent where no NFT is listed.
  abbrev pub send_nft_configs : List ConfigNftArgs → String → Action W (Unit {0})
  send_nft_configs input_params configuator =
      if nonempty input_params
      then each (node.batch_config_nft configuator) (chunk input_params 20)
      else pure tt

  -- `configureNftsByHelper`
  unfoldable pub configure_nfts_by_helper :
      Dict NftParams → Dict String → String → Action W (Unit {0})
  configure_nfts_by_helper nfts_params nft_addresses admin = do
    address_provider ← get_lend_pool_addresses_provider node
    configuator ← get_lend_pool_configurator_proxy node
    send_nft_configs (config_nft_inputs nfts_params nft_addresses) configuator
