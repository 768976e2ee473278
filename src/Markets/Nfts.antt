-- ===== src/Markets/Nfts.antt =====
-- markets/bend/nftsConfigs.ts: the parameters of the NFT classes and collections.
use lender.Common.{[], ◌∷◌}
use lender.Common.Dict.{Dict}
use lender.Types.ContractId.{bnft}
use lender.Types.Params.{NftParams, plain}

abbrev pub strategy_nft_class_a : NftParams
strategy_nft_class_a = record {
  base_ltv_as_collateral = plain 5000;
  liquidation_threshold = 9000;
  liquidation_bonus = 10000;
  redeem_duration = 4;
  auction_duration = 4;
  redeem_fine = 500;
  redeem_threshold = 5000;
  min_bid_fine = 2000;
  b_nft_impl = bnft;
  max_supply = 0;
  max_token_id = 0;
}

abbrev pub strategy_nft_class_b : NftParams
strategy_nft_class_b = record {
  base_ltv_as_collateral = plain 4000;
  liquidation_threshold = 9000;
  liquidation_bonus = 10000;
  redeem_duration = 4;
  auction_duration = 4;
  redeem_fine = 500;
  redeem_threshold = 5000;
  min_bid_fine = 2000;
  b_nft_impl = bnft;
  max_supply = 0;
  max_token_id = 0;
}

abbrev pub strategy_nft_class_c : NftParams
strategy_nft_class_c = record {
  base_ltv_as_collateral = plain 3000;
  liquidation_threshold = 9000;
  liquidation_bonus = 10000;
  redeem_duration = 4;
  auction_duration = 4;
  redeem_fine = 500;
  redeem_threshold = 5000;
  min_bid_fine = 2000;
  b_nft_impl = bnft;
  max_supply = 0;
  max_token_id = 0;
}

abbrev pub strategy_nft_class_d : NftParams
strategy_nft_class_d = record {
  base_ltv_as_collateral = plain 2000;
  liquidation_threshold = 9000;
  liquidation_bonus = 10000;
  redeem_duration = 4;
  auction_duration = 4;
  redeem_fine = 500;
  redeem_threshold = 5000;
  min_bid_fine = 2000;
  b_nft_impl = bnft;
  max_supply = 0;
  max_token_id = 0;
}

abbrev pub strategy_nft_class_e : NftParams
strategy_nft_class_e = record {
  base_ltv_as_collateral = plain 1000;
  liquidation_threshold = 9000;
  liquidation_bonus = 10000;
  redeem_duration = 4;
  auction_duration = 4;
  redeem_fine = 500;
  redeem_threshold = 5000;
  min_bid_fine = 2000;
  b_nft_impl = bnft;
  max_supply = 0;
  max_token_id = 0;
}

abbrev pub strategy_nft_wpunks : NftParams
strategy_nft_wpunks = record strategy_nft_class_b { max_supply = 10000; max_token_id = 9999 }

abbrev pub strategy_nft_molandaks : NftParams
strategy_nft_molandaks = record strategy_nft_class_c { max_supply = 3333; max_token_id = 99999 }

abbrev pub strategy_nft_chewy : NftParams
strategy_nft_chewy = record strategy_nft_class_c { max_supply = 2448; max_token_id = 99999 }

abbrev pub strategy_nft_skrumpeys : NftParams
strategy_nft_skrumpeys = record strategy_nft_class_c { max_supply = 3333; max_token_id = 99999 }

abbrev pub strategy_nft_chog : NftParams
strategy_nft_chog = record strategy_nft_class_c { max_supply = 0; max_token_id = 0 }

abbrev pub strategy_nft_bayc : NftParams
strategy_nft_bayc = record strategy_nft_class_b { max_supply = 10000; max_token_id = 9999 }

abbrev pub strategy_nft_doodle : NftParams
strategy_nft_doodle = record strategy_nft_class_b { max_supply = 10000; max_token_id = 9999 }

abbrev pub strategy_nft_mayc : NftParams
strategy_nft_mayc = record strategy_nft_class_b { max_supply = 20000; max_token_id = 30007 }

abbrev pub strategy_nft_clonex : NftParams
strategy_nft_clonex = record strategy_nft_class_b { max_supply = 20000; max_token_id = 19999 }

abbrev pub strategy_nft_azuki : NftParams
strategy_nft_azuki = record strategy_nft_class_b { max_supply = 10000; max_token_id = 9999 }

abbrev pub strategy_nft_kongz : NftParams
strategy_nft_kongz = record strategy_nft_class_b { max_supply = 5000; max_token_id = 5000 }

abbrev pub strategy_nft_cool : NftParams
strategy_nft_cool = record strategy_nft_class_b { max_supply = 10000; max_token_id = 9999 }

abbrev pub strategy_nft_meebits : NftParams
strategy_nft_meebits = record strategy_nft_class_b { max_supply = 20000; max_token_id = 19999 }

abbrev pub strategy_nft_wow : NftParams
strategy_nft_wow = record strategy_nft_class_b { max_supply = 10000; max_token_id = 9999 }

abbrev pub strategy_nft_wkoda : NftParams
strategy_nft_wkoda = record strategy_nft_class_b { max_supply = 10000; max_token_id = 99999 }

-- `strategyNftParams`
abbrev pub strategy_nft_params : Dict NftParams
strategy_nft_params =
    ("ClassA", strategy_nft_class_a)
    ∷ ("ClassB", strategy_nft_class_b)
    ∷ ("ClassC", strategy_nft_class_c)
    ∷ ("ClassD", strategy_nft_class_d)
    ∷ ("ClassE", strategy_nft_class_e)
    ∷ ("WPUNKS", strategy_nft_wpunks)
    ∷ ("BAYC", strategy_nft_bayc)
    ∷ ("DOODLE", strategy_nft_doodle)
    ∷ ("SDOODLE", strategy_nft_doodle)
    ∷ ("MAYC", strategy_nft_mayc)
    ∷ ("CLONEX", strategy_nft_clonex)
    ∷ ("AZUKI", strategy_nft_azuki)
    ∷ ("KONGZ", strategy_nft_kongz)
    ∷ ("COOL", strategy_nft_cool)
    ∷ ("MEEBITS", strategy_nft_meebits)
    ∷ ("WOW", strategy_nft_wow)
    ∷ ("WKODA", strategy_nft_wkoda)
    ∷ []
