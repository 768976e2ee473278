-- ===== src/Init/Reserves.antt =====
-- helpers/init-helpers.ts: `initReservesByHelper`, `getBTokenExtraParams` and
-- `configureReservesByHelper`.
pub mod Configured
pub mod Strategies
pub mod Listed
use Prim.Native.String
use lender.Common.{
  ℕ, ◌*◌, ◌/◌, String, Bool, true, false, List, [], ◌∷◌, ◌++◌, Option, none, some, if◌then◌else◌,
}
use lender.Common.Dict.{Dict, lookup, insert}
use lender.Configuration.{load_pool_config}
use lender.Constants.{one_ray}
use lender.Db.{get_contract_address_with_json_fallback, text_or}
use lender.Deploy.{
  Node, InterestRateArgs, InitReserveInput, ConfigReserveArgs, each,
  get_lend_pool_addresses_provider, get_lend_pool_configurator_proxy, deploy_rate_strategy,
  raw_insert_contract_address_in_db,
}
use lender.Failure.{Action, Result, ok, err, pure, ◌>>=◌, ◌>>◌}
use lender.Init.Nfts.{nonempty}
use lender.Networks.{Environment}
use lender.Types.ContractId.{ContractId, contract_text, debt_token}
use lender.Types.Params.{ReserveParams, InterestRateStrategyParams}
use lender.Utils.Address.{AddressChecks, truthy}
use lender.Utils.Chunk.{chunk}

-- `getBTokenExtraParams`
unfoldable pub get_btoken_extra_params : String → String → String
get_btoken_extra_params b_token_name token_address = "0x10"

-- The prefixes of the names and symbols of the tokens of a market, and the collector's address.
pub record TokenNaming : Type 0 where
  pub b_token_name_prefix : String
  pub b_token_symbol_prefix : String
  pub debt_token_name_prefix : String
  pub debt_token_symbol_prefix : String
  pub collector_address : String

-- `new BigNumber(0.75).multipliedBy(oneRay)`
abbrev pub max_utilization_rate : ℕ
max_utilization_rate = one_ray * 75 / 100

-- The loop of `configureReservesByHelper`: the argument of each reserve with an address, which is
-- that of its entry, and the addresses of those that may be borrowed.
unfoldable pub config_reserve_inputs : Dict ReserveParams → Dict String → List ConfigReserveArgs
config_reserve_inputs [] token_addresses = []
config_reserve_inputs ((asset_symbol, params) ∷ reserves) token_addresses =
    let inputs = config_reserve_inputs reserves token_addresses in
    if truthy (lookup asset_symbol token_addresses)
    then record {
      asset = text_or (lookup asset_symbol token_addresses) "";
      reserve_factor = params.reserve_factor;
      max_utilization_rate = max_utilization_rate;
    }
      ∷ inputs
    else inputs

pub assets_params : Dict ReserveParams → Dict String → List String
assets_params [] token_addresses = []
assets_params ((asset_symbol, params) ∷ reserves) token_addresses =
    let assets = assets_params reserves token_addresses in
    if truthy (lookup asset_symbol token_addresses)
    then if params.borrowing_enabled
      then text_or (lookup asset_symbol token_addresses) "" ∷ assets
      else assets
    else assets

-- `rateStrategies[strategy.name]`
abbrev pub rate_args : String → InterestRateStrategyParams → InterestRateArgs
rate_args address_provider strategy = record {
  addresses_provider = address_provider;
  optimal_utilization_rate = strategy.optimal_utilization_rate;
  base_variable_borrow_rate = strategy.base_variable_borrow_rate;
  variable_rate_slope1 = strategy.variable_rate_slope1;
  variable_rate_slope2 = strategy.variable_rate_slope2;
}

module _ {W : Type 0} (checks : AddressChecks) (env : Environment) (node : Node W) where
  -- `getContractAddressWithJsonFallback(id, pool)`
  unfoldable pub implementation_address : String → ContractId → Action W String
  implementation_address pool_name id w = elim (load_pool_config pool_name) [
    | ok config ↦ (
      get_contract_address_with_json_fallback node.lowdb checks env config (contract_text id) w,
      w,
    )
    | err e ↦ (err e, w)
  ]

  -- The address of a reserve's rate strategy: the one deployed under its name in this run, and else
  -- a new one, which goes on file; with the strategies of the run after it.
  unfoldable pub strategy_address :
      String → InterestRateStrategyParams → Bool → Dict String → Action W (String × Dict String)
  strategy_address address_provider strategy verify strategy_addresses =
      if truthy (lookup strategy.name strategy_addresses)
      then pure (text_or (lookup strategy.name strategy_addresses) "", strategy_addresses)
      else do
        address ←
            deploy_rate_strategy node strategy.name (rate_args address_provider strategy) verify
        raw_insert_contract_address_in_db node strategy.name address
        pure (address, insert strategy.name address strategy_addresses)

  -- The argument for one reserve.
  abbrev pub init_param :
      TokenNaming → String → String → String → ReserveParams → String → String → InitReserveInput
  init_param naming symbol token_address interest_rate_address params b_token_impl debt_token_impl =
      record {
        b_token_impl = b_token_impl;
        debt_token_impl = debt_token_impl;
        underlying_asset_decimals = params.reserve_decimals;
        interest_rate_address = interest_rate_address;
        underlying_asset = token_address;
        treasury = naming.collector_address;
        underlying_asset_name = symbol;
        b_token_name = String.◌++◌ naming.b_token_name_prefix (String.◌++◌ " " symbol);
        b_token_symbol = String.◌++◌ naming.b_token_symbol_prefix symbol;
        debt_token_name = String.◌++◌ naming.debt_token_name_prefix (String.◌++◌ " " symbol);
        debt_token_symbol = String.◌++◌ naming.debt_token_symbol_prefix symbol;
      }

  -- The loop of `initReservesByHelper` over the entries of the market's parameters, with the
  -- strategies of the run and the arguments so far.
  unfoldable pub init_reserve_inputs :
      String
      → TokenNaming
      → String
      → Bool
      → Dict String
      → Dict ReserveParams
      → Dict String
      → List InitReserveInput
      → Action W (List InitReserveInput)
  init_reserve_inputs address_provider naming pool_name verify token_addresses [] strategies
        inputs =
      pure inputs
  init_reserve_inputs address_provider naming pool_name verify token_addresses
        ((symbol, params) ∷ reserves) strategies inputs =
      let go_on : Dict String → List InitReserveInput → Action W (List InitReserveInput) =
        init_reserve_inputs address_provider naming pool_name verify token_addresses reserves in
      let add : Action W (List InitReserveInput) = (do
        found ← strategy_address address_provider params.strategy verify strategies
        b_token_impl ← implementation_address pool_name params.b_token_impl
        debt_token_impl ← implementation_address pool_name debt_token
        go_on (found.1) (
            inputs
            ++ init_param naming symbol (text_or (lookup symbol token_addresses) "") (found.0)
                params b_token_impl debt_token_impl
              ∷ [])) in
      if truthy (lookup symbol token_addresses) then add else go_on strategies inputs

  -- `initReservesByHelper`
  unfoldable pub init_reserves_by_helper :
      Dict ReserveParams → Dict String → TokenNaming → String → String → Bool → Action W (Unit {0})
  init_reserves_by_helper reserves_params token_addresses naming admin pool_name verify = do
    address_provider ← get_lend_pool_addresses_provider node
    init_input_params ←
        init_reserve_inputs address_provider naming pool_name verify token_addresses reserves_params
          [] []
    configurator ← get_lend_pool_configurator_proxy node
    each (node.batch_init_reserve configurator) (chunk init_input_params 1)

module _ {W : Type 0} (node : Node W) where
  -- The end of `configureReservesByHelper`: nothing is sent where no reserve is listed.
  abbrev pub send_reserve_configs :
      List ConfigReserveArgs → List String → String → Action W (Unit {0})
  send_reserve_configs input_params assets configuator =
      if nonempty input_params
      then each (node.batch_config_reserve configuator) (chunk input_params 20)
        >> node.set_borrowing_flag_on_reserve configuator assets true
      else pure tt

  -- `configureReservesByHelper`
  unfoldable pub configure_reserves_by_helper :
      Dict ReserveParams → Dict String → String → Action W (Unit {0})
  configure_reserves_by_helper reserves_params token_addresses admin = do
    address_provider ← get_lend_pool_addresses_provider node
    configuator ← get_lend_pool_configurator_proxy node
    send_reserve_configs (config_reserve_inputs reserves_params token_addresses)
        (assets_params reserves_params token_addresses) configuator
