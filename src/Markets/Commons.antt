-- ===== src/Markets/Commons.antt =====
-- markets/bend/commons.ts: the configuration that the markets share.
use lender.Common.{[]}
use lender.Constants.{one_ether, mock_reserve_aggregators_prices, mock_nft_aggregators_prices}
use lender.Markets.Addresses
use lender.Types.Params.{CommonConfiguration}

-- `CommonsConfig`
abbrev pub commons_config : CommonConfiguration
commons_config = record {
  market_id = "Commons";
  b_token_name_prefix = "Bend interest bearing";
  b_token_symbol_prefix = "bend";
  debt_token_name_prefix = "Bend debt bearing";
  debt_token_symbol_prefix = "bendDebt";
  provider_id = 0;
  protocol_global_params = record {
    mock_usd_price = 425107839690;
    usd_address = "0x9ceb4d4c184d1786614a593a03621b7f37f8685f";
    nil_address = "0x0000000000000000000000000000000000000000";
    one_address = "0x0000000000000000000000000000000000000001";
  };
  mocks = record {
    b_nft_name_prefix = "Bound NFT";
    b_nft_symbol_prefix = "bound";
    all_assets_initial_prices = mock_reserve_aggregators_prices;
    all_nfts_initial_prices = mock_nft_aggregators_prices;
  };
  proxy_admin_pool = Addresses.proxy_admin_pool;
  proxy_admin_fund = Addresses.proxy_admin_fund;
  proxy_admin_wtl = Addresses.proxy_admin_wtl;
  bnft_registry = Addresses.bnft_registry;
  provider_registry = Addresses.provider_registry;
  provider_registry_owner = Addresses.provider_registry_owner;
  reserve_oracle = Addresses.reserve_oracle;
  nft_oracle = Addresses.nft_oracle;
  pool_admin = Addresses.pool_admin;
  pool_admin_index = 1;
  emergency_admin = Addresses.emergency_admin;
  emergency_admin_index = 2;
  reserve_aggregators = Addresses.reserve_aggregators;
  reserve_assets = Addresses.no_assets;
  reserves_config = [];
  nfts_assets = Addresses.no_assets;
  nfts_config = [];
  wrapped_native_token = Addresses.wrapped_native_token;
  crypto_punks_market = Addresses.crypto_punks_market;
  wrapped_punk_token = Addresses.wrapped_punk_token;
  reserve_factor_collector_address = Addresses.reserve_factor_collector_address;
  incentives_controller = Addresses.incentives_controller;
  oracle_quote_currency = "ETH";
  oracle_quote_unit = one_ether;
}
