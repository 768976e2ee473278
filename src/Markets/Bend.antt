-- ===== src/Markets/Bend.antt =====
-- markets/bend/index.ts: the market itself.
use lender.Common.{[], ◌∷◌}
use lender.Common.Dict.{Dict}
use lender.Markets.Assets
use lender.Markets.Commons.{commons_config}
use lender.Markets.Reserves.{strategy_weth, strategy_dai, strategy_usdc, strategy_usdt}
use lender.Markets.Nfts.{
  strategy_nft_azuki, strategy_nft_bayc, strategy_nft_chewy, strategy_nft_chog, strategy_nft_clonex,
  strategy_nft_doodle, strategy_nft_mayc, strategy_nft_molandaks, strategy_nft_skrumpeys,
  strategy_nft_wkoda, strategy_nft_wpunks,
}
use lender.Types.Params.{CommonConfiguration, NftParams, ReserveParams}

-- `ReservesConfig`
abbrev pub reserves_config : Dict ReserveParams
reserves_config =
    ("WETH", strategy_weth)
    ∷ ("DAI", strategy_dai)
    ∷ ("USDC", strategy_usdc)
    ∷ ("USDT", strategy_usdt)
    ∷ []

-- `NftsConfig`
abbrev pub nfts_config : Dict NftParams
nfts_config =
    ("WPUNKS", strategy_nft_wpunks)
    ∷ ("BAYC", strategy_nft_bayc)
    ∷ ("DOODLE", strategy_nft_doodle)
    ∷ ("SDOODLE", strategy_nft_doodle)
    ∷ ("MAYC", strategy_nft_mayc)
    ∷ ("CLONEX", strategy_nft_clonex)
    ∷ ("AZUKI", strategy_nft_azuki)
    ∷ ("WKODA", strategy_nft_wkoda)
    ∷ ("MOLANDAKS", strategy_nft_molandaks)
    ∷ ("CHEWY", strategy_nft_chewy)
    ∷ ("SKRUMPEYS", strategy_nft_skrumpeys)
    ∷ ("CHOG", strategy_nft_chog)
    ∷ []

-- `BendConfig`: the shared configuration with the fields that the market overrides.
abbrev pub bend_config : CommonConfiguration
bend_config = record commons_config {
  market_id = "Bend genesis market";
  provider_id = 1;
  reserves_config = reserves_config;
  nfts_config = nfts_config;
  reserve_assets = Assets.reserve_assets;
  nfts_assets = Assets.nfts_assets;
}
