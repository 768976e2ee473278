-- ===== src/Tasks/Full/LendPool.antt =====
-- tasks/full/lend-pool.ts: the libraries, the pool, its loans and its configurator, and the
-- implementations of the tokens; the pool is paused before the last.
use lender.Common.{String, Bool, true, Option, if◌then◌else◌}
use lender.Configuration.{load_pool_config, get_emergency_admin}
use lender.Deploy.{
  Node, get_lend_pool_addresses_provider, contract_at, raw_insert_contract_address_in_db,
}
use lender.Deployments.{Factories}
use lender.Deployments.Implementations.{returned, deploy_b_token_implementations}
use lender.Deployments.Libraries.{
  deploy_bend_libraries, deploy_lend_pool, deploy_lend_pool_configurator,
}
use lender.Deployments.Protocol.{deploy_lend_pool_loan}
use lender.Failure.{Action, thrown, pure, fail, ◌>>=◌, ◌>>◌}
use lender.Networks.{Environment}
use lender.Tasks.Full.{ProviderCalls, defined, param_address}
use lender.Tasks.PoolAdmin.{AdminCalls}
use lender.Types.ContractId.{
  ContractId, contract_text, bnft_registry, lend_pool, lend_pool_loan, lend_pool_configurator,
}
use lender.Types.Params.{CommonConfiguration}
use lender.Utils.Address.{AddressChecks, not_falsy_or_zero_address}
use mathlib.Core.List.{List}

module _ {W : Type 0} (env : Environment) (node : Node W) (factories : Factories W)
    (checks : AddressChecks) where
  -- `if (address == undefined || !notFalsyOrZeroAddress(address)) throw Error(message)`
  unfoldable pub required : Option String → String → Action W String
  required address message =
      if not_falsy_or_zero_address checks address then defined address else fail (thrown message)

  -- The address of a proxy goes on file in place of that of the implementation.
  unfoldable pub proxy_on_file : ContractId → String → Action W String
  proxy_on_file id address = do
    proxy ← contract_at node address id
    raw_insert_contract_address_in_db node (contract_text id) proxy
    pure proxy

  module _ (signers : List String) (provider : ProviderCalls W) (admin_calls : AdminCalls W) where
    -- The part of `full:deploy-lend-pool` that tells the provider of the market's own contracts
    unfoldable pub set_market_contracts : CommonConfiguration → String → Action W (Unit {0})
    set_market_contracts pool_config addresses_provider = do
      registry_address ←
          required (param_address env pool_config.bnft_registry)
            "Invalid BNFT Registry address in pool config"
      bnft_registry_proxy ← contract_at node registry_address bnft_registry
      provider.set_bnft_registry addresses_provider bnft_registry_proxy
      controller ←
          required (param_address env pool_config.incentives_controller)
            "Invalid IncentivesController address in pool config"
      provider.set_incentives_controller addresses_provider controller

    -- The parts that deploy an implementation, set it and put its proxy on file
    unfoldable pub deploy_pool_part : String → Bool → Action W String
    deploy_pool_part addresses_provider verify = do
      lend_pool_impl ← deploy_lend_pool node factories verify
      provider.set_lend_pool_impl addresses_provider lend_pool_impl.address
      address ← admin_calls.get_lend_pool addresses_provider
      proxy_on_file lend_pool address

    unfoldable pub deploy_loan_part : String → Bool → Action W String
    deploy_loan_part addresses_provider verify = do
      lend_pool_loan_impl ← deploy_lend_pool_loan node factories verify
      provider.set_lend_pool_loan_impl addresses_provider lend_pool_loan_impl.address
      address ← provider.get_lend_pool_loan addresses_provider
      proxy_on_file lend_pool_loan address

    unfoldable pub deploy_configurator_part : String → Bool → Action W String
    deploy_configurator_part addresses_provider verify = do
      configurator_impl ← deploy_lend_pool_configurator node factories verify
      provider.set_lend_pool_configurator_impl addresses_provider configurator_impl.address
      address ← admin_calls.get_lend_pool_configurator addresses_provider
      proxy_on_file lend_pool_configurator address

    -- `full:deploy-lend-pool`
    unfoldable pub deploy_lend_pool_task : String → Bool → Action W (Unit {0})
    deploy_lend_pool_task pool verify = do
      pool_config ← returned (load_pool_config pool)
      addresses_provider ← get_lend_pool_addresses_provider node
      set_market_contracts pool_config addresses_provider
      deploy_bend_libraries node factories verify
      _ ← deploy_pool_part addresses_provider verify
      _ ← deploy_loan_part addresses_provider verify
      configurator_proxy ← deploy_configurator_part addresses_provider verify
      admin ← defined (get_emergency_admin env signers pool_config)
      admin_calls.set_pool_pause admin configurator_proxy true
      deploy_b_token_implementations node factories checks env pool pool_config.reserves_config
          verify
