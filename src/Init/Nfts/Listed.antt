-- ===== src/Init/Nfts/Listed.antt =====
-- Whether the parameters of a market's NFTs are accepted, and what is made of an empty table of
-- addresses.
use lender.Common.{String, ◌≡◌, refl, true, Bool-cases, inl, inr, [], ◌∷◌, All}
use lender.Common.Dict.{Dict, lookup}
use lender.Init.Chain.{IsPlain, to_input}
use lender.Markets.Nfts.{
  strategy_nft_wpunks, strategy_nft_bayc, strategy_nft_doodle, strategy_nft_mayc,
  strategy_nft_clonex, strategy_nft_azuki, strategy_nft_wkoda, strategy_nft_molandaks,
  strategy_nft_chewy, strategy_nft_skrumpeys, strategy_nft_chog,
}
use lender.Contracts.Configurator.Acceptance.{accepts-Acceptable, accepts}
use lender.Init.Nfts.{config_nft_inputs, config_nft_args, is_minus_one}
use lender.Init.Nfts.Configured.{Good}
use lender.Markets.Bend.{bend_config, nfts_config}
use lender.Types.Params.{NftParams}
use lender.Utils.Address.{truthy}

-- Parameters that the configurator accepts, whatever the address.
abbrev pub GoodParams : String × NftParams → Type 0
GoodParams entry = (address : String) → Good (config_nft_args address (entry.1))

config_nft_inputs-Good :
    (nfts : Dict NftParams) (addresses : Dict String)
    → All GoodParams nfts
    → All Good (config_nft_inputs nfts addresses)
unfolding config_nft_inputs
config_nft_inputs-Good [] addresses h = tt
config_nft_inputs-Good ((symbol, params) ∷ nfts) addresses (h, hs) =
    let later = config_nft_inputs-Good nfts addresses hs in
    elim (Bool-cases (truthy (lookup symbol addresses))) [
      | inl listed ↦ elim (Bool-cases (is_minus_one params.base_ltv_as_collateral)) [
        | inl skipped ↦ rw (listed, skipped) later
        | inr kept ↦ rw (listed, kept) (h _, later)
      ]
      | inr unlisted ↦ rw unlisted later
    ]

fine :
    (params : NftParams)
    → IsPlain params.base_ltv_as_collateral
    → accepts (to_input (config_nft_args "" params)) ≡ true
    → (address : String) → Good (config_nft_args address params)
fine params p h address = (p, accepts-Acceptable (to_input (config_nft_args address params)) h)

bend_params : All GoodParams nfts_config
bend_params = (
  fine strategy_nft_wpunks tt refl,
  (
    fine strategy_nft_bayc tt refl,
    (
      fine strategy_nft_doodle tt refl,
      (
        fine strategy_nft_doodle tt refl,
        (
          fine strategy_nft_mayc tt refl,
          (
            fine strategy_nft_clonex tt refl,
            (
              fine strategy_nft_azuki tt refl,
              (
                fine strategy_nft_wkoda tt refl,
                (
                  fine strategy_nft_molandaks tt refl,
                  (
                    fine strategy_nft_chewy tt refl,
                    (fine strategy_nft_skrumpeys tt refl, (fine strategy_nft_chog tt refl, tt)),
                  ),
                ),
              ),
            ),
          ),
        ),
      ),
    ),
  ),
)

-- Whatever the addresses of the collections, the arguments that are made of the market's parameters
-- of NFTs encode inputs that the configurator accepts.
pub bend_nfts_acceptable :
    (addresses : Dict String) → All Good (config_nft_inputs bend_config.nfts_config addresses)
bend_nfts_acceptable addresses = config_nft_inputs-Good nfts_config addresses bend_params

pub config_none : (nfts : Dict NftParams) → config_nft_inputs nfts [] ≡ []
unfolding config_nft_inputs
config_none [] = refl
config_none (n ∷ nfts) = config_none nfts
