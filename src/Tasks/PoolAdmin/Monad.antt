-- ===== src/Tasks/PoolAdmin/Monad.antt =====
-- `pool-admin:update-nfts-config` on monad, whose assets the selection by network does not reach.
use lender.Common.{String, ◌≡◌, refl, none, ◌∙◌, some, []}
use lender.Common.Dict.{Dict}
use lender.Configuration.{load_pool_config}
use lender.Db.{DbEntry}
use lender.Deploy.{
  Node, address_on_file, address_on_file-found, get_lend_pool_addresses_provider,
  get_lend_pool_configurator_proxy,
}
use lender.Failure.{Action, ok, fail, thrown, ◌>>=◌}
use lender.Failure.Laws.{bind-ok}
use lender.Init.Nfts.{config_nft_inputs, configure_nfts_by_helper, send_nft_configs}
use lender.Init.Nfts.Listed.{config_none}
use lender.Markets.Bend.{bend_config}
use lender.Networks.{Environment, get_param_per_network}
use lender.Networks.Laws.{get_param_per_network_direct}
use lender.Tasks.PoolAdmin.{AdminCalls, update_nfts_config}
use lender.Types.ContractId.{lend_pool_configurator, lend_pool_addresses_provider}
use lender.Types.Network.{Network}
use lender.Types.Params.{NftParams}

module _ {W : Type 0} (env : Environment) (node : Node W) (calls : AdminCalls W) where
  nothing_to_configure :
      (nfts : Dict NftParams) (admin : String) (w : W) (provider entry : DbEntry)
      → node.lowdb.get "LendPoolAddressesProvider" w ≡ some provider
      → node.lowdb.get "LendPoolConfigurator" w ≡ some entry
      → configure_nfts_by_helper node nfts [] admin w ≡ (ok tt, w)
  unfolding configure_nfts_by_helper get_lend_pool_addresses_provider
      get_lend_pool_configurator_proxy
  nothing_to_configure nfts admin w provider entry has_provider has_configurator =
      bind-ok (address_on_file node lend_pool_addresses_provider)
        (λ _. address_on_file node lend_pool_configurator >>= rest)
        (address_on_file-found node lend_pool_addresses_provider w has_provider)
      ∙ bind-ok (address_on_file node lend_pool_configurator) rest
          (address_on_file-found node lend_pool_configurator w has_configurator)
      ∙ rw (config_none nfts) refl
    where
      rest : String → Action W (Unit {0})
      rest = send_nft_configs node (config_nft_inputs nfts [])

  -- Where FORK is not set, the network is monad, the provider and the configurator are on file
  -- and the provider answers, the task that updates the configuration of the NFTs succeeds and
  -- changes nothing.
  pub update_nfts_config_on_monad :
      (admin : String) (w : W) (provider entry : DbEntry)
      → env.fork ≡ ""
      → env.network_name ≡ "monad"
      → node.lowdb.get "LendPoolAddressesProvider" w ≡ some provider
      → node.lowdb.get "LendPoolConfigurator" w ≡ some entry
      → calls.get_pool_admin provider.address w ≡ (ok admin, w)
      → update_nfts_config env node calls "Bend" w ≡ (ok tt, w)
  unfolding update_nfts_config load_pool_config get_lend_pool_addresses_provider
      get_param_per_network
  update_nfts_config_on_monad admin w provider entry unset monad has_provider has_configurator
        asked =
      bind-ok (address_on_file node lend_pool_addresses_provider)
        (λ p. calls.get_pool_admin p >>= configure)
        (address_on_file-found node lend_pool_addresses_provider w has_provider)
      ∙ bind-ok (calls.get_pool_admin provider.address) configure asked
      ∙ rw (monad, get_param_per_network_direct bend_config.nfts_assets env Network.monad unset)
          (nothing_to_configure bend_config.nfts_config admin w provider entry has_provider
            has_configurator)
    where
      configure : String → Action W (Unit {0})
      configure pool_admin =
          elim (get_param_per_network env bend_config.nfts_assets env.network_name) [
            | none ↦ fail (
                thrown
                  "NFT assets is undefined. Check NftsAssets configuration at config directory")
            | some nfts_assets ↦
                configure_nfts_by_helper node bend_config.nfts_config nfts_assets pool_admin
          ]
