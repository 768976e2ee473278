-- ===== src/Tasks/OracleAdmin.antt =====
-- tasks/misc/oracle-admin.ts: the tasks of the oracles' administrators. What they read only to print
-- it is not modelled.
use Prim.Native.String
use lender.Common.{String, ℕ, List, Bool, Option, if◌then◌else◌, ◌==◌, eqb}
use lender.Common.Dict.{lookup}
use lender.Configuration.{load_pool_config}
use lender.Constants.{mock_nft_aggregators_prices, usd_address}
use lender.Deploy.{Node, get_lend_pool_addresses_provider, contract_at, each}
use lender.Deployments.Implementations.{returned}
use lender.Failure.{Action, thrown, pure, fail, ◌>>=◌, ◌>>◌}
use lender.Getters.Periphery.{get_ierc721_detailed}
use lender.Getters.Protocol.{get_nft_oracle}
use lender.Networks.{Environment, get_param_per_network}
use lender.Tasks.Full.{ProviderCalls, ContractCalls}
use lender.Tasks.Full.Oracles.{read}
use lender.Types.ContractId.{nft_oracle, reserve_oracle}

-- The calls of the oracles and of an NFT contract, and the splitting of a text at commas; the signer
-- of a transaction comes first.
pub record OracleCalls (W : Type 0) : Type 0 where
  pub set_nft_oracle : String → String → String → Action W (Unit {0})
  pub set_reserve_oracle : String → String → String → Action W (Unit {0})
  pub nft_price_feed_map : String → String → Action W Bool
  pub symbol : String → Action W String
  pub price_feed_admin : String → Action W String
  pub set_price_feed_admin : String → String → Action W (Unit {0})
  pub set_asset_data : String → String → String → Option ℕ → Action W (Unit {0})
  pub add_aggregator : String → String → String → Option String → Action W (Unit {0})
  pub get_asset_price : String → String → Action W ℕ
  pub split_at_commas : String → List String

module _ {W : Type 0} (env : Environment) (node : Node W) (provider : ProviderCalls W)
    (contracts : ContractCalls W) (calls : OracleCalls W) where
  -- `oracle-admin:set-oracle-proxy`, given the number of the type
  unfoldable pub set_oracle_proxy_task : String → ℕ → String → Action W (Unit {0})
  set_oracle_proxy_task pool kind proxy = do
    pool_config ← returned (load_pool_config pool)
    addresses_provider ← get_lend_pool_addresses_provider node
    owner ← contracts.owner addresses_provider
    (if eqb kind 1
        then calls.set_nft_oracle owner addresses_provider proxy
        else if eqb kind 2
        then calls.set_reserve_oracle owner addresses_provider proxy
        else fail (thrown "invalid type"))

  -- An asset of `oracle-admin:set-nft-assets` is new to the oracle and has a symbol.
  unfoldable pub check_nft_asset : String → String → Action W (Unit {0})
  check_nft_asset oracle asset = do
    is_existed ← calls.nft_price_feed_map oracle asset
    (if is_existed
        then fail (thrown (String.◌++◌ "Asset " (String.◌++◌ asset " existed in oracle already")))
        else pure tt)
    nft_contract ← get_ierc721_detailed node asset
    nft_symbol ← calls.symbol nft_contract
    (if nft_symbol == ""
        then fail (thrown (String.◌++◌ "Asset " (String.◌++◌ asset " has no symbol")))
        else pure tt)

  -- `oracle-admin:set-nft-assets`
  unfoldable pub set_nft_assets_task : String → String → Action W (Unit {0})
  set_nft_assets_task pool assets = do
    pool_config ← returned (load_pool_config pool)
    oracle ← get_nft_oracle node ""
    owner ← contracts.owner oracle
    each (check_nft_asset oracle) (calls.split_at_commas assets)
    contracts.set_assets owner oracle (calls.split_at_commas assets)

  -- `oracle-admin:set-price-feed-admin`
  unfoldable pub set_price_feed_admin_task : String → String → Action W (Unit {0})
  set_price_feed_admin_task pool feed_admin = do
    pool_config ← returned (load_pool_config pool)
    addresses_provider ← get_lend_pool_addresses_provider node
    address ← provider.get_nft_oracle addresses_provider
    oracle ← contract_at node address nft_oracle
    calls.set_price_feed_admin oracle feed_admin

  -- `oracle-admin:feed-init-nft-price`
  unfoldable pub feed_init_nft_price_task : String → Action W (Unit {0})
  feed_init_nft_price_task pool = do
    pool_config ← returned (load_pool_config pool)
    addresses_provider ← get_lend_pool_addresses_provider node
    address ← provider.get_nft_oracle addresses_provider
    oracle ← contract_at node address nft_oracle
    feed_admin ← calls.price_feed_admin oracle
    nfts_assets ← read (get_param_per_network env pool_config.nfts_assets env.network_name)
    each
        (λ entry.
          calls.set_asset_data feed_admin oracle (entry.1)
            (lookup (entry.0) mock_nft_aggregators_prices))
        nfts_assets

  -- `oracle-admin:add-usd-eth-asset`
  unfoldable pub add_usd_eth_asset_task : String → Action W (Unit {0})
  add_usd_eth_asset_task pool = do
    pool_config ← returned (load_pool_config pool)
    addresses_provider ← get_lend_pool_addresses_provider node
    address ← provider.get_reserve_oracle addresses_provider
    oracle ← contract_at node address reserve_oracle
    owner ← contracts.owner oracle
    aggregators ← read (get_param_per_network env pool_config.reserve_aggregators env.network_name)
    calls.add_aggregator owner oracle usd_address (lookup "USD" aggregators)
    _ ← calls.get_asset_price oracle usd_address
    pure tt
