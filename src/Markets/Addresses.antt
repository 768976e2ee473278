-- ===== src/Markets/Addresses.antt =====
-- markets/bend/commons.ts: the addresses that the markets share, network by network.
use lender.Common.{none, some, [], ◌∷◌}
use lender.Constants.{zero_address}
use lender.Types.Params.{AddressPerNetwork, SymbolsPerNetwork}

-- `ProxyAdminPool`
abbrev pub proxy_admin_pool : AddressPerNetwork
proxy_admin_pool = record {
  coverage = none;
  hardhat = none;
  localhost = none;
  goerli = some "0x19Fc1F11e1BEA5317ce54d97bbf5675a38e2F4a3";
  rinkeby = some "0xC019619F15aF1f96A695aBA39478e64ABcAa474b";
  sepolia = some "0x60E1dD31C415687d64855ec5A3F5367cDF4e2D8A";
  main = some "0x501c991E0D31D408c25bCf00da27BdF2759A394a";
  monad = none;
}

-- `ProxyAdminFund`
abbrev pub proxy_admin_fund : AddressPerNetwork
proxy_admin_fund = record {
  coverage = none;
  hardhat = none;
  localhost = none;
  goerli = some "0xd9E1e945e042fa29cD984cb0f280ae5Ce990D993";
  rinkeby = some "0x64DA9D7651CA78caAB756740C6057e2b7B1E63De";
  sepolia = some "0x575a6BDCB1AAc7C3655f6a52A7c4e355b209DaBB";
  main = some "0x2A71a0F5cef1fFc519027AD12f19453110e70666";
  monad = none;
}

-- `ProxyAdminWTL`
abbrev pub proxy_admin_wtl : AddressPerNetwork
proxy_admin_wtl = record {
  coverage = none;
  hardhat = none;
  localhost = none;
  goerli = some "0x1055d0961CE2E1aF92f57b208171B90f8f1c7916";
  rinkeby = none;
  sepolia = some "0x15c2Ae6eE45b57f592e6DcDf7C06a2d956c98d03";
  main = none;
  monad = none;
}

-- `PoolAdmin`
abbrev pub pool_admin : AddressPerNetwork
pool_admin = record {
  coverage = none;
  hardhat = none;
  localhost = none;
  goerli = some "0xafF5C36642385b6c7Aaf7585eC785aB2316b5db6";
  rinkeby = some "0xafF5C36642385b6c7Aaf7585eC785aB2316b5db6";
  sepolia = some "0xafF5C36642385b6c7Aaf7585eC785aB2316b5db6";
  main = some "0x868964fa49a6fd6e116FE82c8f4165904406f479";
  monad = none;
}

-- `EmergencyAdmin`
abbrev pub emergency_admin : AddressPerNetwork
emergency_admin = record {
  coverage = none;
  hardhat = none;
  localhost = none;
  goerli = some "0xFc6a5b329340719b2693C2c74a5D056cf4f93FB0";
  rinkeby = some "0xFc6a5b329340719b2693C2c74a5D056cf4f93FB0";
  sepolia = some "0xFc6a5b329340719b2693C2c74a5D056cf4f93FB0";
  main = some "0x2CFa21b4dEc4409670899d05b8644e9C432250de";
  monad = none;
}

-- `BNFTRegistry`
abbrev pub bnft_registry : AddressPerNetwork
bnft_registry = record {
  coverage = some "";
  hardhat = some "";
  localhost = some "0xCE1e5D792d24F62b29D35DeB85eC04b1F66447b1";
  goerli = some "0x37A76Db446bDB3EF1b73112a8D5E6868de06464f";
  rinkeby = some "0xB873F088EB721261bc88BbC739B5C794e02e414b";
  sepolia = some "0x694b86Deef7C2C06d4C40A07a5995815C444170D";
  main = some "0x79d922DD382E42A156bC0A354861cDBC4F09110d";
  monad = some "";
}

-- `ProviderRegistry`
abbrev pub provider_registry : AddressPerNetwork
provider_registry = record {
  coverage = some "";
  hardhat = some "";
  localhost = some "";
  goerli = some "0x5eff819a886474503004d39C64b5c057FFD6fAe2";
  rinkeby = some "0xE199f7a0173FEAfb8c0085b2724b544a7c614273";
  sepolia = some "0x4e762Cd5695F9217E04c77df98BA9DcDadb6Cc33";
  main = some "0x2C16905Dfd953cf3BF3960c4A101c1eEBBd37E32";
  monad = some "";
}

-- `ProviderRegistryOwner`
abbrev pub provider_registry_owner : AddressPerNetwork
provider_registry_owner = record {
  coverage = some "";
  hardhat = some "";
  localhost = some "";
  goerli = some "0xafF5C36642385b6c7Aaf7585eC785aB2316b5db6";
  rinkeby = some "0xafF5C36642385b6c7Aaf7585eC785aB2316b5db6";
  sepolia = some "0xafF5C36642385b6c7Aaf7585eC785aB2316b5db6";
  main = some "0x868964fa49a6fd6e116FE82c8f4165904406f479";
  monad = none;
}

-- `ReserveOracle`
abbrev pub reserve_oracle : AddressPerNetwork
reserve_oracle = record {
  coverage = some "";
  hardhat = some "";
  localhost = some "";
  goerli = some "0xFFC171ff66bba4303Ea8334d08dB5779daF860a3";
  rinkeby = some "0xEEa5BC7BEB4DD341E8BBa230E22df9CA45f0AE19";
  sepolia = some "0x0EBbD387769f012a3Bbf65eaCb4Ec3db3c7693f6";
  main = some "0x16ca3E500dA893cF2EEBb6b401247e68ca5BC072";
  monad = none;
}

-- `NFTOracle`
abbrev pub nft_oracle : AddressPerNetwork
nft_oracle = record {
  coverage = some "";
  hardhat = some "";
  localhost = some "";
  goerli = some "0xE7E268cC1D025906fe8f6b076ecc40FF1a8dfA61";
  rinkeby = some "0x04af5eF6100E1025560Be50FF244CB31f60d08c2";
  sepolia = some "0xF143144Fb2703C8aeefD0c4D06d29F5Bb0a9C60A";
  main = some "0x7C2A19e54e48718f6C60908a9Cff3396E4Ea1eBA";
  monad = none;
}

-- `WrappedNativeToken`
abbrev pub wrapped_native_token : AddressPerNetwork
wrapped_native_token = record {
  coverage = some "";
  hardhat = some "";
  localhost = some "0xB4B4ead1A260F1572b88b9D8ABa5A152D166c104";
  goerli = some "0xB4FBF271143F4FBf7B91A5ded31805e42b2208d6";
  rinkeby = some "0xc778417E063141139Fce010982780140Aa0cD5Ab";
  sepolia = some "0xfFf9976782d46CC05630D1f6eBAb18b2324d6B14";
  main = some "0xc02aaa39b223fe8d0a0e5c4f27ead9083c756cc2";
  monad = some "0x3bd359C1119dA7Da1D913D1C4D2B7c461115433A";
}

-- `CryptoPunksMarket`
abbrev pub crypto_punks_market : AddressPerNetwork
crypto_punks_market = record {
  coverage = some "";
  hardhat = some "";
  localhost = some "0xb2f97A3c2E48cd36824615801BCeE0Df2eC390";
  goerli = some "0xBccC7a1E79215EC3FD36824615801BCeE0Df2eC3";
  rinkeby = some "0x6389eA3Cf6dE815ba76d7Cf4C6Db6A7093471bcb";
  sepolia = some "0x554309B0888c37139D6E31aBAe30B4502915B5DB";
  main = some "0xb47e3cd837ddf8e4c57f05d70ab865de6e193bbb";
  monad = some "";
}

-- `WrappedPunkToken`
abbrev pub wrapped_punk_token : AddressPerNetwork
wrapped_punk_token = record {
  coverage = some "";
  hardhat = some "";
  localhost = some "0x5a60c5d89A0A0e08ae0CAe73453e3AcC9C335847";
  goerli = some "0xbeD1e8B430FD512b82A18cb121a8442F3889E505";
  rinkeby = some "0x74e4418A41169Fb951Ca886976ccd8b36968c4Ab";
  sepolia = some "0x647dc527Bd7dFEE4DD468cE6fC62FC50fa42BD8b";
  main = some "0xb7F7F6C52F2e2fdb1963Eab30438024864c313F6";
  monad = some "";
}

-- `ReserveFactorCollectorAddress`
abbrev pub reserve_factor_collector_address : AddressPerNetwork
reserve_factor_collector_address = record {
  coverage = some "0xafF5C36642385b6c7Aaf7585eC785aB2316b5db6";
  hardhat = some "0xafF5C36642385b6c7Aaf7585eC785aB2316b5db6";
  localhost = some "0xafF5C36642385b6c7Aaf7585eC785aB2316b5db6";
  goerli = some "0x32B08f895d93a207e8A5C9405870D780A43b25Dd";
  rinkeby = some "0x7A02EE743Aadca63d60945971B7eD12c7f26b6d2";
  sepolia = some "0xdd3eC916c0B438b9DB2Ee675cBD412c46763a641";
  main = some "0x43078AbfB76bd24885Fd64eFFB22049f92a8c495";
  monad = some "0x0000000000000000000000000000000000000001";
}

-- `IncentivesController`
abbrev pub incentives_controller : AddressPerNetwork
incentives_controller = record {
  coverage = some zero_address;
  hardhat = some zero_address;
  localhost = some "0x1eaA4a267eDcde0eB5e08D08810Aa1696b123a2D";
  goerli = some "0x292F693048208184320C01e0C223D624268e5EE7";
  rinkeby = some "0xD800e97aE32b06C1e89ca5126c7bF6aEF89D6B24";
  sepolia = some "0x06A13f172ADce6fdE761c9A2Ff2d0ad50e9e38d0";
  main = some "0x26FC1f11E612366d3367fc0cbFfF9e819da91C8d";
  monad = some zero_address;
}

-- `ReserveAggregators`
abbrev pub reserve_aggregators : SymbolsPerNetwork
reserve_aggregators = record {
  coverage = [];
  hardhat = [];
  localhost =
      ("DAI", "0x10F6794a3Df86bD8B97c7d6D625BAB54677D443b")
      ∷ ("USDC", "0x2cC3790f7CF280fA898E4913CA980410cF38e53b")
      ∷ ("USD", "0x6B8dcBD1bb131ED184221902df1Fe21019ccD7dc")
      ∷ [];
  goerli =
      ("USD", "0xD4a33860578De61DBAbDc8BFdb98FD742fA7028e")
      ∷ ("USDT", "0xF82ced221150d59ac33D42bfc4b0f1ED845B2da6")
      ∷ [];
  rinkeby =
      ("DAI", "0x74825DbC8BF76CC4e9494d0ecB210f676Efa001D")
      ∷ ("USDC", "0xdCA36F27cbC4E38aE16C4E9f99D39b42337F6dcf")
      ∷ ("USD", "0x8A753747A1Fa494EC906cE90E9f37563A8AF630e")
      ∷ [];
  sepolia = ("USD", "0x694AA1769357215DE4FAC081bf1f309aDC325306") ∷ [];
  main =
      ("USD", "0x5f4eC3Df9cbd43714FE2740f5E3616155c5b8419")
      ∷ ("USDT", "0xEe9F2375b4bdF6387aa8265dD4FB8F16512A1d46")
      ∷ ("DAI", "0x773616E4d11A78F511299002da57A0a94577F1f4")
      ∷ ("USDC", "0x986b5E1e1755e3C2440e960477f25201B0a8bbD4")
      ∷ [];
  monad = [];
}

-- The empty `ReserveAssets` and `NftsAssets`, which a market overrides.
abbrev pub no_assets : SymbolsPerNetwork
no_assets = record {
  coverage = [];
  hardhat = [];
  localhost = [];
  goerli = [];
  rinkeby = [];
  sepolia = [];
  main = [];
  monad = [];
}
