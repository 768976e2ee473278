-- ===== src/Tasks/Full.antt =====
-- tasks/full: the tasks that deploy the protocol. `set-DRE`, `compile` and the log lines are not
-- modelled, and a task that catches an error to print it and to leave with `exit(1)` fails with it.
pub mod Providers
pub mod LendPool
pub mod Oracles
pub mod Gateways
pub mod Initialize
pub mod Proxies
use lender.Common.{String, ℕ, List, Bool, false, Option, none, some, if◌then◌else◌}
use lender.Configuration.{Deployments}
use lender.Db.{try_get_contract_address_in_db}
use lender.Deploy.{Node, raw_insert_contract_address_in_db}
use lender.Deployments.{Factories, Argument}
use lender.Deployments.Gateways.{deploy_bend_upgradeable_proxy}
use lender.Deployments.Mocks.{deploy_weth9, deploy_wrapped_punk, deploy_crypto_punks_market}
use lender.Failure.{Action, Result, ok, thrown, pure, fail, undefined_value, ◌>>=◌, ◌>>◌}
use lender.Getters.{value_address}
use lender.Networks.{Environment, flat, get_param_per_network}
use lender.Types.Params.{AddressPerNetwork}
use lender.Utils.Address.{AddressChecks, not_falsy_or_zero_address}

-- The calls of the addresses provider, of which the first argument is the address, ...
pub record ProviderCalls (W : Type 0) : Type 0 where
  pub set_bnft_registry : String → String → Action W (Unit {0})
  pub set_incentives_controller : String → String → Action W (Unit {0})
  pub set_lend_pool_impl : String → String → Action W (Unit {0})
  pub set_lend_pool_loan_impl : String → String → Action W (Unit {0})
  pub set_lend_pool_configurator_impl : String → String → Action W (Unit {0})
  pub set_reserve_oracle : String → String → Action W (Unit {0})
  pub set_nft_oracle : String → String → Action W (Unit {0})
  pub set_wallet_balance_provider : String → String → Action W (Unit {0})
  pub set_bend_data_provider : String → String → Action W (Unit {0})
  pub set_ui_data_provider : String → String → Action W (Unit {0})
  pub set_address : String → String → String → Action W (Unit {0})
  pub set_pool_admin : String → String → Action W (Unit {0})
  pub set_emergency_admin : String → String → Action W (Unit {0})
  pub get_lend_pool_loan : String → Action W String
  pub get_reserve_oracle : String → Action W String
  pub get_nft_oracle : String → Action W String

-- ... and those of the other contracts: `owner` of a contract; an upgrade that an owner sends to a
-- proxy admin for a proxy and an implementation, also with a call; what an owner sends to an oracle;
-- and what is sent to a gateway. `encode` is `interface.encodeFunctionData` of a contract.
pub record ContractCalls (W : Type 0) : Type 0 where
  pub owner : String → Action W String
  pub upgrade : String → String → String → String → Action W (Unit {0})
  pub upgrade_and_call : String → String → String → String → String → Action W (Unit {0})
  pub set_aggregators : String → String → List String → List String → Action W (Unit {0})
  pub set_assets : String → String → List String → Action W (Unit {0})
  pub authorize_lend_pool_nft : String → List String → Action W (Unit {0})
  pub authorize_lend_pool_erc20 : String → List String → Action W (Unit {0})
  pub authorize_caller_whitelist : String → List String → String → Action W (Unit {0})
  pub encode : String → String → List Argument → String

-- A value that the code passes on, which must not be undefined.
abbrev pub defined : {W : Type 0} → Option String → Action W String
defined none = fail undefined_value
defined (some address) = pure address

-- `getParamPerNetwork(param, network)` for an address
abbrev pub param_address : Environment → AddressPerNetwork → Option String
param_address env param = flat (get_param_per_network env param env.network_name)

module _ {W : Type 0} (node : Node W) (factories : Factories W) where
  -- What the configuration deploys where the market has no address.
  abbrev pub own_deployments : Deployments W
  own_deployments = record {
    deploy_weth9 = (do weth ← deploy_weth9 node factories false; pure weth.address);
    deploy_wrapped_punk =
        λ punk. (do wpunk ← deploy_wrapped_punk node factories punk false; pure wpunk.address);
    deploy_crypto_punks_market = (do
      punk ← deploy_crypto_punks_market node factories false
      pure punk.address);
  }

module _ {W : Type 0} (node : Node W) (factories : Factories W) (checks : AddressChecks)
    (calls : ContractCalls W) where
  -- The end of the tasks for what stands behind a proxy: a usable address is that of a proxy, which
  -- the owner of the proxy admin upgrades to the implementation; else a new proxy is deployed, and
  -- what comes after that is done with it.
  unfoldable pub upgrade_or_deploy :
      String
      → Option String
      → String
      → String
      → String
      → String
      → Bool
      → (String → Action W (Unit {0}))
      → Action W String
  upgrade_or_deploy id address proxy_admin owner impl init_encoded_data verify after =
      if not_falsy_or_zero_address checks address
      then (do
        proxy ← defined address
        raw_insert_contract_address_in_db node id proxy
        calls.upgrade owner proxy_admin proxy impl
        pure proxy)
      else (do
        proxy ←
            deploy_bend_upgradeable_proxy node factories id proxy_admin impl init_encoded_data
              verify
        after proxy.address
        pure proxy.address)

  -- `getBendProxyAdminById(id)` with the check that follows it in the tasks
  unfoldable pub usable_proxy_admin : String → String → Action W String
  usable_proxy_admin id message = do
    proxy_admin ← value_address node id
    (if not_falsy_or_zero_address checks (some proxy_admin)
        then pure proxy_admin
        else fail (thrown message))

  -- `tryGetContractAddressInDb`
  abbrev pub found_or_zero : String → Action W String
  found_or_zero id w = (ok (try_get_contract_address_in_db node.lowdb id w), w)
