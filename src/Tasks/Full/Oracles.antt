-- ===== src/Tasks/Full/Oracles.antt =====
-- tasks/full: oracle-reserve.ts, oracle-nft.ts, oracle-token.ts and oracle-helper.ts.
use lender.Common.{
  String, ◌*◌, ◌^◌, List, [], ◌∷◌, map, Bool, true, Option, none, some, if◌then◌else◌,
}
use lender.Common.Dict.{Dict, insert}
use lender.Configuration.{
  load_pool_config, get_genesis_pool_admin, get_wrapped_native_token_address,
}
use lender.Deploy.{Node, get_lend_pool_addresses_provider, contract_at}
use lender.Deployments.{Factories, text, number}
use lender.Deployments.Gateways.{deploy_chainlink_aggregator_helper}
use lender.Deployments.Implementations.{returned}
use lender.Deployments.Protocol.{deploy_reserve_oracle, deploy_nft_oracle, deploy_token_oracle}
use lender.Failure.{Action, undefined_value, pure, fail, ◌>>=◌}
use lender.Getters.{value_address}
use lender.Getters.Aggregators.{get_pairs_token_aggregator}
use lender.Networks.{Environment, get_param_per_network}
use lender.Tasks.Full.{
  ProviderCalls, ContractCalls, defined, param_address, own_deployments, upgrade_or_deploy,
  usable_proxy_admin, found_or_zero,
}
use lender.Tasks.Full.LendPool.{required}
use lender.Types.ContractId.{
  contract_text, bend_proxy_admin_pool, bend_v2_proxy_admin, reserve_oracle, nft_oracle,
  token_oracle, chainlink_aggregator_helper,
}
use lender.Types.Params.{CommonConfiguration}
use lender.Utils.Address.{AddressChecks, not_falsy_or_zero_address}

-- Assets or aggregators of the network: spreading undefined gives nothing, and reading it fails.
abbrev pub spread : Option (Dict String) → Dict String
spread none = []
spread (some d) = d

abbrev pub read : {W : Type 0} → Option (Dict String) → Action W (Dict String)
read none = fail undefined_value
read (some d) = pure d

module _ {W : Type 0} (env : Environment) (node : Node W) (factories : Factories W)
    (checks : AddressChecks) (calls : ContractCalls W) (signers : List String)
    (provider : ProviderCalls W) where
  -- `full:deploy-oracle-reserve`
  unfoldable pub deploy_oracle_reserve_task : String → Bool → Bool → Action W (Unit {0})
  deploy_oracle_reserve_task pool skip_oracle verify = do
    pool_config ← returned (load_pool_config pool)
    addresses_provider ← get_lend_pool_addresses_provider node
    (if skip_oracle
        then (do
          address ←
              required env node factories checks (param_address env pool_config.reserve_oracle)
                "Invalid Reserve Oracle address in pool config"
          provider.set_reserve_oracle addresses_provider address)
        else (do
          proxy_admin ← value_address node (contract_text bend_proxy_admin_pool)
          proxy_owner ← calls.owner proxy_admin
          reserve_aggregators ←
              read (get_param_per_network env pool_config.reserve_aggregators env.network_name)
          pairs ← returned (
              get_pairs_token_aggregator
                (insert "USD" pool_config.protocol_global_params.usd_address
                  (spread (get_param_per_network env pool_config.reserve_assets env.network_name)))
                reserve_aggregators pool_config.oracle_quote_currency)
          weth ← get_wrapped_native_token_address env (own_deployments node factories) pool_config
          reserve_oracle_impl ← deploy_reserve_oracle node factories verify
          proxy ←
              upgrade_or_deploy node factories checks calls (contract_text reserve_oracle)
                (param_address env pool_config.reserve_oracle) proxy_admin proxy_owner
                reserve_oracle_impl.address
                (calls.encode "ReserveOracle" "initialize" (text weth ∷ [])) verify
                (λ address. calls.owner address >>= λ oracle_owner.
                  calls.set_aggregators oracle_owner address (pairs.0) (pairs.1))
          oracle ← contract_at node proxy reserve_oracle
          provider.set_reserve_oracle addresses_provider oracle))

  -- `feedAdmin == undefined || !notFalsyOrZeroAddress(feedAdmin) ? getGenesisPoolAdmin : feedAdmin`
  unfoldable pub feed_admin_or_genesis : CommonConfiguration → Option String → Action W String
  feed_admin_or_genesis pool_config feed_admin =
      if not_falsy_or_zero_address checks feed_admin
      then defined feed_admin
      else defined (get_genesis_pool_admin env signers pool_config)

  -- `full:deploy-oracle-nft`
  unfoldable pub deploy_oracle_nft_task :
      String → Bool → Bool → Option String → Bool → Action W (Unit {0})
  deploy_oracle_nft_task pool skip_oracle skip_provider feed_admin verify = do
    pool_config ← returned (load_pool_config pool)
    (if skip_oracle
        then (do
          address ←
              required env node factories checks (param_address env pool_config.nft_oracle)
                "Invalid NFT Oracle address in pool config"
          addresses_provider ← get_lend_pool_addresses_provider node
          provider.set_nft_oracle addresses_provider address)
        else (do
          proxy_admin ←
              usable_proxy_admin node factories checks calls (contract_text bend_proxy_admin_pool)
                "Invalid pool proxy admin in config"
          proxy_owner ← calls.owner proxy_admin
          admin ← feed_admin_or_genesis pool_config feed_admin
          nfts_assets ← read (get_param_per_network env pool_config.nfts_assets env.network_name)
          nft_oracle_impl ← deploy_nft_oracle node factories verify
          proxy ←
              upgrade_or_deploy node factories checks calls (contract_text nft_oracle)
                (param_address env pool_config.nft_oracle) proxy_admin proxy_owner
                nft_oracle_impl.address
                (calls.encode "NFTOracle" "initialize" (
                  text admin
                  ∷ number (2 * 10 ^ 17)
                  ∷ number (1 * 10 ^ 17)
                  ∷ number 1800
                  ∷ number 600
                  ∷ number 21600
                  ∷ number 18
                  ∷ []))
                verify
                (λ address. calls.owner address >>= λ oracle_owner.
                  calls.set_assets oracle_owner address (map (λ entry. entry.1) nfts_assets))
          oracle ← contract_at node proxy nft_oracle
          (if skip_provider then pure tt else (do
            addresses_provider ← get_lend_pool_addresses_provider node
            provider.set_nft_oracle addresses_provider oracle))))

  -- `full:deploy-oracle-token`
  unfoldable pub deploy_oracle_token_task : String → Option String → Action W (Unit {0})
  deploy_oracle_token_task pool feed_admin = do
    pool_config ← returned (load_pool_config pool)
    proxy_admin ←
        usable_proxy_admin node factories checks calls (contract_text bend_v2_proxy_admin)
          "Invalid pool proxy admin in config"
    proxy_owner ← calls.owner proxy_admin
    admin ← feed_admin_or_genesis pool_config feed_admin
    token_oracle_address ← found_or_zero node factories checks calls (contract_text token_oracle)
    token_oracle_impl ← deploy_token_oracle node factories true
    proxy ←
        upgrade_or_deploy node factories checks calls (contract_text token_oracle)
          (some token_oracle_address) proxy_admin proxy_owner token_oracle_impl.address
          (calls.encode "NFTOracle" "initialize" (
            text admin
            ∷ number (2 * 10 ^ 7)
            ∷ number (1 * 10 ^ 7)
            ∷ number 1800
            ∷ number 600
            ∷ number 21600
            ∷ number 8
            ∷ []))
          true (λ address. pure tt)
    _ ← contract_at node proxy token_oracle
    pure tt

  -- `dev:deploy-aggregator-helper`
  unfoldable pub deploy_aggregator_helper_task : String → Bool → Action W (Unit {0})
  deploy_aggregator_helper_task pool verify = do
    pool_config ← returned (load_pool_config pool)
    address_provider ← get_lend_pool_addresses_provider node
    helper_address ←
        found_or_zero node factories checks calls (contract_text chainlink_aggregator_helper)
    proxy_admin ← value_address node (contract_text bend_proxy_admin_pool)
    proxy_owner ← calls.owner proxy_admin
    helper_impl ← deploy_chainlink_aggregator_helper node factories verify
    proxy ←
        upgrade_or_deploy node factories checks calls (contract_text chainlink_aggregator_helper)
          (some helper_address) proxy_admin proxy_owner helper_impl.address
          (calls.encode "ChainlinkAggregatorHelper" "initialize" (text address_provider ∷ []))
          verify (λ address. pure tt)
    _ ← contract_at node proxy chainlink_aggregator_helper
    pure tt
