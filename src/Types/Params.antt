-- ===== src/Types/Params.antt =====
-- helpers/types.ts: the parameters of reserves, of NFTs and of a market. A numeric text is modelled by
-- the number that it denotes; the one that the code compares with "-1" is an integer.
use lender.Common.{ℕ, String, Bool, Option}
use lender.Common.Dict.{Dict}
use lender.Types.Network.{ParamsPerNetwork}
use lender.Types.ContractId.{ContractId}

-- A decimal text such as "5000" or "-1": `negative n` is the text of -(n + 1).
pub data NumericText : Type 0 where
  plain : ℕ → NumericText
  negative : ℕ → NumericText

-- `IInterestRateStrategyParams`
pub record InterestRateStrategyParams : Type 0 where
  pub name : String
  pub optimal_utilization_rate : ℕ
  pub base_variable_borrow_rate : ℕ
  pub variable_rate_slope1 : ℕ
  pub variable_rate_slope2 : ℕ

-- `IReserveParams`, with the interfaces that it extends
pub record ReserveParams : Type 0 where
  pub strategy : InterestRateStrategyParams
  pub base_ltv_as_collateral : ℕ
  pub liquidation_threshold : ℕ
  pub liquidation_bonus : ℕ
  pub borrowing_enabled : Bool
  pub reserve_decimals : ℕ
  pub b_token_impl : ContractId
  pub reserve_factor : ℕ

-- `INftParams`, with the interfaces that it extends
pub record NftParams : Type 0 where
  pub base_ltv_as_collateral : NumericText
  pub liquidation_threshold : ℕ
  pub liquidation_bonus : ℕ
  pub redeem_duration : ℕ
  pub auction_duration : ℕ
  pub redeem_fine : ℕ
  pub redeem_threshold : ℕ
  pub min_bid_fine : ℕ
  pub b_nft_impl : ContractId
  pub max_supply : ℕ
  pub max_token_id : ℕ

-- `iParamsPerNetwork<tEthereumAddress | undefined>`
abbrev pub AddressPerNetwork : Type 0
AddressPerNetwork = ParamsPerNetwork (Option String)

-- `iParamsPerNetwork<SymbolMap<tEthereumAddress>>`
abbrev pub SymbolsPerNetwork : Type 0
SymbolsPerNetwork = ParamsPerNetwork (Dict String)

-- `IProtocolGlobalConfig`
pub record ProtocolGlobalConfig : Type 0 where
  pub mock_usd_price : ℕ
  pub usd_address : String
  pub nil_address : String
  pub one_address : String

-- `IMocksConfig`
pub record MocksConfig : Type 0 where
  pub b_nft_name_prefix : String
  pub b_nft_symbol_prefix : String
  pub all_assets_initial_prices : Dict ℕ
  pub all_nfts_initial_prices : Dict ℕ

-- `ICommonConfiguration`
pub record CommonConfiguration : Type 0 where
  pub market_id : String
  pub b_token_name_prefix : String
  pub b_token_symbol_prefix : String
  pub debt_token_name_prefix : String
  pub debt_token_symbol_prefix : String
  pub provider_id : ℕ
  pub protocol_global_params : ProtocolGlobalConfig
  pub mocks : MocksConfig
  pub proxy_admin_pool : AddressPerNetwork
  pub proxy_admin_fund : AddressPerNetwork
  pub proxy_admin_wtl : AddressPerNetwork
  pub bnft_registry : AddressPerNetwork
  pub provider_registry : AddressPerNetwork
  pub provider_registry_owner : AddressPerNetwork
  pub reserve_oracle : AddressPerNetwork
  pub nft_oracle : AddressPerNetwork
  pub pool_admin : AddressPerNetwork
  pub pool_admin_index : ℕ
  pub emergency_admin : AddressPerNetwork
  pub emergency_admin_index : ℕ
  pub reserve_aggregators : SymbolsPerNetwork
  pub reserve_assets : SymbolsPerNetwork
  pub reserves_config : Dict ReserveParams
  pub nfts_assets : SymbolsPerNetwork
  pub nfts_config : Dict NftParams
  pub wrapped_native_token : AddressPerNetwork
  pub crypto_punks_market : AddressPerNetwork
  pub wrapped_punk_token : AddressPerNetwork
  pub reserve_factor_collector_address : AddressPerNetwork
  pub incentives_controller : AddressPerNetwork
  pub oracle_quote_currency : String
  pub oracle_quote_unit : ℕ
