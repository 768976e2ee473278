-- ===== src/Configuration.antt =====
-- helpers/configuration.ts: the parameters and the addresses that a market gives for the current
-- network, and the deployments that stand in for missing ones.
pub mod Laws
use lender.Common.{
  ℕ, String, Bool, true, false, Option, none, some, List, if◌then◌else◌, ◌==◌, get_elem?, ◌≡◌,
}
use lender.Constants.{zero_address}
use lender.Db.{text_or, contains_text}
use lender.Failure.{Result, ok, err, thrown, Action}
use lender.Markets.Bend.{bend_config}
use lender.Markets.Commons.{commons_config}
use lender.Networks.{Environment, get_param_per_network, get_param_per_pool, flat}
use lender.Types.Params.{CommonConfiguration, AddressPerNetwork, ReserveParams, NftParams}
use lender.Common.Dict.{Dict}
use lender.Utils.Address.{AddressChecks, truthy, not_falsy_or_zero_address}

-- `loadPoolConfig`, whose argument is a text of the command line
unfoldable pub load_pool_config : String → Result CommonConfiguration
load_pool_config config_name =
    if config_name == "Bend"
    then ok bend_config
    else if config_name == "Commons"
    then ok commons_config
    else err (thrown "Unsupported pool configuration: Commons,Bend")

-- `getReservesConfigByPool`
unfoldable pub get_reserves_config_by_pool : String → Dict ReserveParams
unfolding get_param_per_pool
get_reserves_config_by_pool pool =
    get_param_per_pool (record { proto = bend_config.reserves_config }) pool

-- `getNftsConfigByPool`
unfoldable pub get_nfts_config_by_pool : String → Dict NftParams
unfolding get_param_per_pool
get_nfts_config_by_pool pool = get_param_per_pool (record { proto = bend_config.nfts_config }) pool

-- `process.env.FORK ? process.env.FORK : DRE.network.name`
abbrev pub current_network : Environment → String
current_network env = if env.fork == "" then env.network_name else env.fork

-- `process.env.MAINNET_FORK === "true" ? "main" : DRE.network.name`
abbrev pub deployment_network : Environment → String
deployment_network env = if env.mainnet_fork == "true" then "main" else env.network_name

abbrev pub if_truthy {ℓ} : {A : Type ℓ} → Option String → (String → A) → A → A
if_truthy none f d = d
if_truthy (some s) f d = if s == "" then d else f s

module _ (env : Environment) where
  -- `getProviderRegistryAddress`
  unfoldable pub get_provider_registry_address : CommonConfiguration → String
  get_provider_registry_address config =
      if_truthy (flat (get_param_per_network env config.provider_registry (current_network env)))
        (λ address. address) zero_address

  -- `getGenesisPoolAdmin`, given the addresses of the signers
  unfoldable pub get_genesis_pool_admin : List String → CommonConfiguration → Option String
  get_genesis_pool_admin signers config =
      if_truthy (flat (get_param_per_network env config.pool_admin (current_network env)))
        (λ address. some address) (get_elem? signers config.pool_admin_index)

  -- `getEmergencyAdmin`, given the addresses of the signers
  unfoldable pub get_emergency_admin : List String → CommonConfiguration → Option String
  get_emergency_admin signers config =
      if_truthy (flat (get_param_per_network env config.emergency_admin (current_network env)))
        (λ address. some address) (get_elem? signers config.emergency_admin_index)

  -- `getReserveFactorCollectorAddress`
  unfoldable pub get_reserve_factor_collector_address : CommonConfiguration → Option String
  get_reserve_factor_collector_address config =
      flat (get_param_per_network env config.reserve_factor_collector_address (current_network env))

-- The deployments of helpers/contracts-deployments.ts that the getters below fall back on: each
-- sends a transaction through ethers and gives the new contract's address.
pub record Deployments (W : Type 0) : Type 0 where
  pub deploy_weth9 : Action W String
  pub deploy_wrapped_punk : String → Action W String
  pub deploy_crypto_punks_market : Action W String

module _ {W : Type 0} (env : Environment) (deployments : Deployments W) where
  -- `getWrappedNativeTokenAddress`
  unfoldable pub get_wrapped_native_token_address : CommonConfiguration → Action W String
  get_wrapped_native_token_address config w =
      if_truthy
        (flat (get_param_per_network env config.wrapped_native_token (deployment_network env)))
        (λ address. (ok address, w))
        (if contains_text (deployment_network env) "main"
          then (err (thrown "WETH not set at mainnet configuration."), w)
          else deployments.deploy_weth9 w)

  -- `getWrappedPunkTokenAddress`
  unfoldable pub get_wrapped_punk_token_address :
      AddressChecks → CommonConfiguration → Option String → Action W String
  get_wrapped_punk_token_address checks config punk w =
      if_truthy
        (flat (get_param_per_network env config.wrapped_punk_token (deployment_network env)))
        (λ address. (ok address, w))
        (if contains_text (deployment_network env) "main"
          then (err (thrown "WPUNKS not set at mainnet configuration."), w)
          else if not_falsy_or_zero_address checks punk
          then deployments.deploy_wrapped_punk (text_or punk "") w
          else (err (thrown "PUNK not set at dev or testnet configuration."), w))

  -- `getCryptoPunksMarketAddress`
  unfoldable pub get_crypto_punks_market_address : CommonConfiguration → Action W String
  get_crypto_punks_market_address config w =
      if_truthy
        (flat (get_param_per_network env config.crypto_punks_market (deployment_network env)))
        (λ address. (ok address, w))
        (if contains_text (deployment_network env) "main"
          then (err (thrown "CryptoPunksMarket not set at mainnet configuration."), w)
          else deployments.deploy_crypto_punks_market w)
