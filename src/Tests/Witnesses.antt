-- ===== src/Tests/Witnesses.antt =====
-- The theorems on the configurator, the initialisation and the tasks, applied where their hypotheses
-- hold.
use lender.Common.{
  ℕ, ◌≡◌, ◌↔◌, refl, String, true, false, List, [], ◌∷◌, map, All, arith, if◌then◌else◌,
}
use lender.Common.Dict.{Dict}
use lender.Contracts.Configurator.{
  ConfigNftInput, ConfigReserveInput, batch_config_nft, batch_config_reserve, get_borrowing_enabled,
}
use lender.Contracts.Configurator.Acceptance.{accepts-Acceptable}
use lender.Contracts.Configurator.Batch.{
  AllAcceptable, Outcome, NftsOnly, last_for, batch_config_nft_accepts, batch_config_nft_records,
}
use lender.Contracts.Configurator.Recorded.{ReserveOutcome, last_reserve_for}
use lender.Contracts.Configurator.Reserves.{FactorFits, batch_config_reserve_accepts}
use lender.Contracts.Pool.{set_pause}
use lender.Deploy.{
  deploy_rate_strategy, deploy_interest_rate, deploy_interest_rate_with_id, with_save_and_verify,
  raw_insert_contract_address_in_db,
}
use lender.Failure.{Failure, ok, err}
use lender.Contracts.Configurator.Pausing.{CanSet}
use lender.Init.Chain.{to_input, to_reserve_input}
use lender.Init.Nfts.{config_nft_inputs, configure_nfts_by_helper}
use lender.Init.Nfts.Configured.{Good, configure_nfts_by_helper_configures}
use lender.Init.Nfts.Listed.{bend_nfts_acceptable}
use lender.Init.Reserves.{
  config_reserve_inputs, assets_params, configure_reserves_by_helper, strategy_address,
}
use lender.Init.Reserves.Configured.{Fitting, configure_reserves_by_helper_configures}
use lender.Init.Reserves.Strategies.{strategy_address_once}
use lender.Markets.Reserves.{strategy_weth}
use lender.Markets.Bend.{bend_config}
use lender.Tasks.PoolAdmin.{set_pause_task, update_nfts_config, want_pause}
use lender.Tasks.PoolAdmin.Laws.{set_pause_task_lem}
use lender.Tasks.PoolAdmin.Monad.{update_nfts_config_on_monad}
use lender.Tests.World.{
  World, a_pool, a_world, a_node, a_chain, entry_at, some_calls, a_pool_run, some_numbers,
  some_checks, on_network,
}
use lender.Utils.Objects.{includes}

-- The configurator.
abbrev an_input : String → ℕ → ConfigNftInput
an_input asset ltv = record {
  asset = asset;
  base_ltv = ltv;
  liquidation_threshold = 9000;
  liquidation_bonus = 500;
  redeem_duration = 4;
  auction_duration = 4;
  redeem_fine = 500;
  redeem_threshold = 5000;
  min_bid_fine = 2000;
  max_supply = 10;
  max_token_id = 9;
  max_collateral_cap = 100;
}

abbrev some_inputs : List ConfigNftInput
some_inputs = an_input "0xa" 3000 ∷ an_input "0xb" 4000 ∷ an_input "0xa" 5000 ∷ []

some_inputs-AllAcceptable : AllAcceptable some_inputs
some_inputs-AllAcceptable = (
  accepts-Acceptable (an_input "0xa" 3000) refl,
  (
    accepts-Acceptable (an_input "0xb" 4000) refl,
    (accepts-Acceptable (an_input "0xa" 5000) refl, tt),
  ),
)

batch_config_nft_accepts_example :
    ((batch_config_nft "0xadmin" some_inputs a_pool).0 ≡ ok tt)
    ↔ ((a_pool.pool_admin ≡ "0xadmin") × AllAcceptable some_inputs)
batch_config_nft_accepts_example = batch_config_nft_accepts "0xadmin" some_inputs a_pool

batch_config_nft_records_example :
    ((batch_config_nft "0xadmin" some_inputs a_pool).0 ≡ ok tt)
    × Outcome
        (a_pool.nfts "0xa")
        ((batch_config_nft "0xadmin" some_inputs a_pool).1.nfts "0xa")
        (last_for "0xa" some_inputs)
    × NftsOnly a_pool ((batch_config_nft "0xadmin" some_inputs a_pool).1)
batch_config_nft_records_example =
    batch_config_nft_records "0xadmin" some_inputs a_pool "0xa" refl some_inputs-AllAcceptable

abbrev some_reserves : List ConfigReserveInput
some_reserves = record { asset = "0xw"; reserve_factor = 3000; max_utilization_rate = 75 } ∷ []

batch_config_reserve_accepts_example :
    ((batch_config_reserve "0xadmin" some_reserves a_pool).0 ≡ ok tt)
    ↔ ((a_pool.pool_admin ≡ "0xadmin") × All FactorFits some_reserves)
batch_config_reserve_accepts_example = batch_config_reserve_accepts "0xadmin" some_reserves a_pool

-- The initialisation.
abbrev nft_addresses : Dict String
nft_addresses = ("BAYC", "0xbayc") ∷ ("AZUKI", "0xazuki") ∷ []

abbrev token_addresses : Dict String
token_addresses = ("WETH", "0xweth") ∷ ("USDC", "0xusdc") ∷ []

configure_nfts_by_helper_configures_example :
    ((configure_nfts_by_helper a_node bend_config.nfts_config nft_addresses "0xadmin" a_world).0
      ≡ ok tt)
    × Outcome
        (a_pool.nfts "0xbayc")
        ((configure_nfts_by_helper a_node bend_config.nfts_config nft_addresses "0xadmin"
            a_world).1.pool.nfts
          "0xbayc")
        (last_for "0xbayc" (map to_input (config_nft_inputs bend_config.nfts_config nft_addresses)))
    × NftsOnly a_pool (
        (configure_nfts_by_helper a_node bend_config.nfts_config nft_addresses "0xadmin"
          a_world).1.pool)
configure_nfts_by_helper_configures_example =
    configure_nfts_by_helper_configures a_node "0xadmin" a_chain bend_config.nfts_config
      nft_addresses "0xadmin" a_world (entry_at "0xprovider") (entry_at "0xconfigurator") "0xbayc"
      refl refl refl refl (bend_nfts_acceptable nft_addresses)

reserves_fit : All Fitting (config_reserve_inputs bend_config.reserves_config token_addresses)
unfolding config_reserve_inputs
reserves_fit = (omega arith, (omega arith, tt))

configure_reserves_by_helper_configures_example :
    ((configure_reserves_by_helper a_node bend_config.reserves_config token_addresses "0xadmin"
        a_world).0
      ≡ ok tt)
    × ReserveOutcome
        (a_pool.reserves "0xusdc")
        ((configure_reserves_by_helper a_node bend_config.reserves_config token_addresses "0xadmin"
            a_world).1.pool.reserves
          "0xusdc")
        (last_reserve_for "0xusdc" (
          map to_reserve_input (config_reserve_inputs bend_config.reserves_config token_addresses)))
        (if includes (assets_params bend_config.reserves_config token_addresses) "0xusdc"
          then true
          else get_borrowing_enabled ((a_pool.reserves "0xusdc").configuration))
configure_reserves_by_helper_configures_example =
    configure_reserves_by_helper_configures a_node "0xadmin" a_chain bend_config.reserves_config
      token_addresses "0xadmin" a_world (entry_at "0xprovider") (entry_at "0xconfigurator") "0xusdc"
      refl refl refl refl reserves_fit

bend_nfts_acceptable_example : All Good (config_nft_inputs bend_config.nfts_config nft_addresses)
bend_nfts_acceptable_example = bend_nfts_acceptable nft_addresses

abbrev some_assets : Dict String
some_assets = ("WETH", "0xw") ∷ ("DAI", "0xd") ∷ []

abbrev some_aggregators : Dict String
some_aggregators = ("DAI", "0xo") ∷ []

-- The first reserve of the market that is initialised, and another with a strategy of the same name.
abbrev world_after : World
world_after =
    (strategy_address some_checks (on_network "sepolia") a_node "0xprovider" strategy_weth.strategy
      false [] a_world).1

strategy_given :
    strategy_address some_checks
      (on_network "sepolia")
      a_node
      "0xprovider"
      strategy_weth.strategy
      false
      []
      a_world
    ≡ (ok ("0xstrategy", (strategy_weth.strategy.name, "0xstrategy") ∷ []), world_after)
unfolding strategy_address deploy_rate_strategy deploy_interest_rate deploy_interest_rate_with_id
    with_save_and_verify raw_insert_contract_address_in_db
strategy_given = refl

strategy_address_once_example :
    strategy_address some_checks
      (on_network "sepolia")
      a_node
      "0xprovider"
      strategy_weth.strategy
      false
      ((strategy_weth.strategy.name, "0xstrategy") ∷ [])
      world_after
    ≡ (ok ("0xstrategy", (strategy_weth.strategy.name, "0xstrategy") ∷ []), world_after)
strategy_address_once_example =
    strategy_address_once some_checks (on_network "sepolia") a_node "0xprovider"
      strategy_weth.strategy strategy_weth.strategy false []
      ((strategy_weth.strategy.name, "0xstrategy") ∷ []) "0xstrategy" a_world world_after
      strategy_given refl refl

set_pause_task_lem_example :
    let run = set_pause_task some_numbers a_node some_calls "Bend" "1" a_world in
    let want = want_pause some_numbers "1" in
    ((run.0 ≡ ok tt) ↔ CanSet want a_pool)
    × (run.0 ≡ ok tt → run.1.pool ≡ (set_pause want a_pool).1)
    × (run.0 ≡ ok tt → run.1.pool.is_paused ≡ want)
    × ((e : Failure) → run.0 ≡ err e → run.1.pool ≡ a_pool)
set_pause_task_lem_example =
    set_pause_task_lem some_numbers a_node some_calls a_pool_run "Bend" "1" (entry_at "0xprovider")
      a_world refl refl

update_nfts_config_on_monad_example :
    update_nfts_config (on_network "monad") a_node some_calls "Bend" a_world ≡ (ok tt, a_world)
update_nfts_config_on_monad_example =
    update_nfts_config_on_monad (on_network "monad") a_node some_calls "0xadmin" a_world
      (entry_at "0xprovider") (entry_at "0xconfigurator") refl refl refl refl refl
