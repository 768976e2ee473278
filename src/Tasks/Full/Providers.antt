-- ===== src/Tasks/Full/Providers.antt =====
-- tasks/full: address-provider-registry.ts, address-provider.ts, proxy-admin.ts and data-provider.ts,
-- and tasks/deployments/add-market-to-registry.ts.
use lender.Common.{
  String, ℕ, List, Bool, true, false, not, ◌&&◌, ◌||◌, ◌==◌, Option, none, some, if◌then◌else◌,
}
use lender.Configuration.{load_pool_config, get_genesis_pool_admin, get_emergency_admin}
use lender.Deploy.{
  Node, get_lend_pool_addresses_provider, contract_at, raw_insert_contract_address_in_db,
}
use lender.Deployments.{Factories}
use lender.Deployments.Gateways.{
  deploy_bend_proxy_admin, deploy_wallet_balancer_provider, deploy_bend_protocol_data_provider,
  deploy_ui_pool_data_provider,
}
use lender.Deployments.Implementations.{returned}
use lender.Deployments.Protocol.{
  deploy_lend_pool_addresses_provider_registry, deploy_lend_pool_addresses_provider,
}
use lender.Failure.{Action, thrown, pure, fail, ◌>>=◌, ◌>>◌}
use lender.Networks.{Environment}
use lender.Tasks.Full.{ProviderCalls, defined, param_address}
use lender.Types.ContractId.{
  contract_text, lend_pool_addresses_provider, lend_pool_addresses_provider_registry,
  bend_proxy_admin_pool, bend_proxy_admin_fund, bend_proxy_admin_wtl,
}
use lender.Types.Params.{AddressPerNetwork}
use lender.Utils.Address.{AddressChecks, not_falsy_or_zero_address}

-- The registry of providers, whose transactions the signer that comes first sends, the account of
-- the deployer, and what a fork needs to send from another account: to take it over and to pay it.
pub record RegistryCalls (W : Type 0) : Type 0 where
  pub register_addresses_provider : String → String → String → ℕ → Action W (Unit {0})
  pub deploy_signer : String
  pub to_locale_lower_case : String → String
  pub impersonate_account : String → Action W (Unit {0})
  pub send_ten_ether : String → Action W (Unit {0})

-- `address && isAddress(address) && !isZeroAddress(address)`
abbrev pub proper_address : AddressChecks → Option String → Bool
proper_address checks none = false
proper_address checks (some address) =
    not (address == "") && checks.is_address address && not (checks.is_zero_address address)

module _ {W : Type 0} (env : Environment) (node : Node W) (factories : Factories W)
    (checks : AddressChecks) where
  -- `full:deploy-address-provider-registry`
  unfoldable pub deploy_address_provider_registry_task : String → Bool → Action W (Unit {0})
  deploy_address_provider_registry_task pool verify = do
    pool_config ← returned (load_pool_config pool)
    (if not_falsy_or_zero_address checks (param_address env pool_config.provider_registry)
        then (do
          address ← defined (param_address env pool_config.provider_registry)
          raw_insert_contract_address_in_db node
              (contract_text lend_pool_addresses_provider_registry) address)
        else (do _ ← deploy_lend_pool_addresses_provider_registry node factories verify; pure tt))

  -- One of the three parts of `full:deploy-proxy-admin`
  unfoldable pub proxy_admin_part : String → AddressPerNetwork → Bool → Action W (Unit {0})
  proxy_admin_part id param verify =
      if not_falsy_or_zero_address checks (param_address env param)
      then (do
        address ← defined (param_address env param)
        raw_insert_contract_address_in_db node id address)
      else (do _ ← deploy_bend_proxy_admin node factories id verify; pure tt)

  -- `full:deploy-proxy-admin`
  unfoldable pub deploy_proxy_admin_task : String → Bool → String → Bool → Action W (Unit {0})
  deploy_proxy_admin_task pool all proxyadminid verify = do
    pool_config ← returned (load_pool_config pool)
    (if all || proxyadminid == contract_text bend_proxy_admin_pool
        then proxy_admin_part (contract_text bend_proxy_admin_pool) pool_config.proxy_admin_pool
            verify
        else pure tt)
    (if all || proxyadminid == contract_text bend_proxy_admin_fund
        then proxy_admin_part (contract_text bend_proxy_admin_fund) pool_config.proxy_admin_fund
            verify
        else pure tt)
    (if all || proxyadminid == contract_text bend_proxy_admin_wtl
        then proxy_admin_part (contract_text bend_proxy_admin_wtl) pool_config.proxy_admin_wtl
            verify
        else pure tt)

  module _ (registry : RegistryCalls W) where
    -- The registry and its owner, deployed first where that is wanted or the market has none.
    unfoldable pub provider_registry_and_owner :
        String
        → Bool
        → Bool
        → Option String
        → Option String
        → Action W ((Option String × Option String) × Bool)
    provider_registry_and_owner pool deploy_registry verify address owner =
        if deploy_registry || not (proper_address checks address)
        then (do
          deploy_address_provider_registry_task pool verify
          deployed ← contract_at node "" lend_pool_addresses_provider_registry
          pure ((some deployed, some registry.deploy_signer), true))
        else pure ((address, owner), false)

    -- The signer of the registration: on a fork any account, and else the deployer.
    unfoldable pub registry_signer : String → Bool → Action W String
    registry_signer owner deployed =
        if not (env.fork == "")
        then (do registry.impersonate_account owner; registry.send_ten_ether owner; pure owner)
        else if not deployed
            && not (
                registry.to_locale_lower_case owner
                == registry.to_locale_lower_case
                    (registry.to_locale_lower_case registry.deploy_signer))
        then fail (thrown "ProviderRegistryOwner config does not match current signer:")
        else pure owner

    -- `add-market-to-registry`
    unfoldable pub add_market_to_registry : String → String → Bool → Bool → Action W (Unit {0})
    add_market_to_registry pool addresses_provider deploy_registry verify = do
      pool_config ← returned (load_pool_config pool)
      found ←
          provider_registry_and_owner pool deploy_registry verify
            (param_address env pool_config.provider_registry)
            (param_address env pool_config.provider_registry_owner)
      owner ←
          (if proper_address checks (found.0.1)
            then defined (found.0.1)
            else fail (thrown "config.ProviderRegistryOwner is missing or is not an address."))
      signer ← registry_signer owner (found.1)
      address ← defined (found.0.0)
      addresses_provider_registry ← contract_at node address lend_pool_addresses_provider_registry
      instance_ ← contract_at node addresses_provider lend_pool_addresses_provider
      registry.register_addresses_provider signer addresses_provider_registry instance_
          pool_config.provider_id

    module _ (signers : List String) (provider : ProviderCalls W) where
      -- `full:deploy-address-provider`
      unfoldable pub deploy_address_provider_task : String → Bool → Bool → Action W (Unit {0})
      deploy_address_provider_task pool skip_registry verify = do
        pool_config ← returned (load_pool_config pool)
        addresses_provider ←
            deploy_lend_pool_addresses_provider node factories pool_config.market_id verify
        (if skip_registry
            then pure tt
            else add_market_to_registry pool addresses_provider.address
                (not (
                  not_falsy_or_zero_address checks
                    (param_address env pool_config.provider_registry)))
                false)
        pool_admin ← defined (get_genesis_pool_admin env signers pool_config)
        provider.set_pool_admin addresses_provider.address pool_admin
        emergency_admin ← defined (get_emergency_admin env signers pool_config)
        provider.set_emergency_admin addresses_provider.address emergency_admin

module _ {W : Type 0} (node : Node W) (factories : Factories W) (provider : ProviderCalls W) where
  -- `full:deploy-data-provider`
  unfoldable pub deploy_data_provider_task : Bool → Bool → Bool → Bool → Action W (Unit {0})
  deploy_data_provider_task wallet protocol ui verify = do
    addresses_provider ← get_lend_pool_addresses_provider node
    reserve_oracle ← provider.get_reserve_oracle addresses_provider
    nft_oracle ← provider.get_nft_oracle addresses_provider
    (if wallet
        then (do
          wallet_balance_provider ← deploy_wallet_balancer_provider node factories verify
          provider.set_wallet_balance_provider addresses_provider wallet_balance_provider.address)
        else pure tt)
    (if protocol
        then (do
          data_provider ←
              deploy_bend_protocol_data_provider node factories addresses_provider verify
          provider.set_bend_data_provider addresses_provider data_provider.address)
        else pure tt)
    (if ui
        then (do
          ui_provider ← deploy_ui_pool_data_provider node factories reserve_oracle nft_oracle verify
          provider.set_ui_data_provider addresses_provider ui_provider.address)
        else pure tt)
