-- ===== src/Tests/Initialisation.antt =====
-- The theorems on the initialisation of reserves, applied where their hypotheses hold.
use lender.Common.{◌≡◌, refl, String, false, [], ◌∷◌, map}
use lender.Common.Dict.{Dict}
use lender.Configuration.{load_pool_config}
use lender.Db.{
  register_contract_in_json_db, insert_contract_address_in_db,
  get_contract_address_with_json_fallback, get_contract_address_in_db, config_param, address_at_db,
}
use lender.Deploy.{
  InitReserveInput, deploy_rate_strategy, deploy_interest_rate, deploy_interest_rate_with_id,
  with_save_and_verify, raw_insert_contract_address_in_db,
}
use lender.Failure.{ok}
use lender.Init.Reserves.{
  TokenNaming, init_reserve_inputs, strategy_address, implementation_address,
}
use lender.Init.Reserves.Listed.{listed, summary, expected, init_reserve_inputs-listed}
use lender.Markets.Bend.{bend_config}
use lender.Networks.{get_optional_param_address_per_network, get_param_per_network}
use lender.Tests.World.{a_world, a_node, some_checks, on_network}
use lender.Utils.Address.{not_falsy_or_zero_address}

abbrev naming : TokenNaming
naming = record {
  b_token_name_prefix = "Bend interest bearing";
  b_token_symbol_prefix = "bend";
  debt_token_name_prefix = "Bend debt bearing";
  debt_token_symbol_prefix = "bendDebt";
  collector_address = "0xcollector";
}

abbrev token_addresses : Dict String
token_addresses = ("WETH", "0xweth") ∷ []

abbrev an_input : InitReserveInput
an_input = record {
  b_token_impl = "0xbtokenimpl";
  debt_token_impl = "0xdebtimpl";
  underlying_asset_decimals = 18;
  interest_rate_address = "0xstrategy";
  underlying_asset = "0xweth";
  treasury = "0xcollector";
  underlying_asset_name = "WETH";
  b_token_name = "Bend interest bearing WETH";
  b_token_symbol = "bendWETH";
  debt_token_name = "Bend debt bearing WETH";
  debt_token_symbol = "bendDebtWETH";
}

runs :
    (init_reserve_inputs some_checks
      (on_network "sepolia")
      a_node
      "0xprovider"
      naming
      "Bend"
      false
      token_addresses
      bend_config.reserves_config
      []
      []
      a_world).0
    ≡ ok (an_input ∷ [])
unfolding init_reserve_inputs strategy_address implementation_address load_pool_config
    get_contract_address_with_json_fallback get_contract_address_in_db config_param address_at_db
    deploy_rate_strategy deploy_interest_rate deploy_interest_rate_with_id with_save_and_verify
    raw_insert_contract_address_in_db get_optional_param_address_per_network get_param_per_network
    not_falsy_or_zero_address register_contract_in_json_db insert_contract_address_in_db
runs = refl

init_reserve_inputs-listed_example :
    map summary (an_input ∷ [])
    ≡ map (expected naming token_addresses) (listed bend_config.reserves_config token_addresses)
init_reserve_inputs-listed_example =
    init_reserve_inputs-listed some_checks (on_network "sepolia") a_node "0xprovider" naming "Bend"
      false token_addresses bend_config.reserves_config (an_input ∷ []) a_world runs
