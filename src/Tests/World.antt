-- ===== src/Tests/World.antt =====
-- A small world for the tests: a file of contracts, and a pool whose configurator runs.
use lender.Common.{
  true, String, ◌≡◌, ◌≢◌, refl, false, not, none, some, [], ◌∷◌, map, ◌==◌, eq_iff, arith,
}
use lender.Common.Dict.{Dict, lookup, insert, lookup-insert}
use lender.Configuration.{Deployments}
use lender.Constants.{zero_address}
use lender.Contracts.Configurator.{
  batch_config_nft, batch_config_reserve, set_borrowing_flag_on_reserve, set_pool_pause,
}
use lender.Contracts.Pool.{Pool, NftData, ReserveData}
use lender.Db.{is_plain, DbEntry, Lowdb}
use lender.Deploy.{Node}
use lender.Failure.{Result, Action, ok}
use lender.Init.Chain.{to_input, to_reserve_input, RunsConfigurator}
use lender.Networks.{Environment}
use lender.Tasks.PoolAdmin.{AdminCalls, TextNumbers}
use lender.Tasks.PoolAdmin.Laws.{RunsPool}
use lender.Utils.Address.{AddressChecks}

pub record World : Type 0 where
  pub file : Dict DbEntry
  pub pool : Pool

abbrev blank_nft : NftData
blank_nft = record {
  configuration = 0;
  b_nft_address = "0xbnft";
  id = 0;
  max_supply = 0;
  max_token_id = 0;
  max_collateral_cap = 0;
}

abbrev blank_reserve : ReserveData
blank_reserve = record {
  configuration = 0;
  b_token_address = "0xbtoken";
  debt_token_address = "0xdebt";
  interest_rate_address = "0xrate";
  current_liquidity_rate = 0;
  id = 0;
  max_utilization_rate = 0;
}

abbrev pub a_pool : Pool
a_pool = record {
  nfts = λ _. blank_nft;
  reserves = λ _. blank_reserve;
  is_paused = false;
  pause_start_time = 0;
  pause_duration_time = 0;
  block_timestamp = 7;
  pool_admin = "0xadmin";
  emergency_admin = "0xguard";
  risk_admin = "0xrisk";
}

abbrev pub entry_at : String → DbEntry
entry_at address = record { address = address; deployer = none }

abbrev pub a_world : World
a_world = record {
  file =
      ("LendPoolAddressesProvider", entry_at "0xprovider")
      ∷ ("LendPoolConfigurator", entry_at "0xconfigurator")
      ∷ ("BToken", entry_at "0xbtokenimpl")
      ∷ ("DebtToken", entry_at "0xdebtimpl")
      ∷ [];
  pool = a_pool;
}

pub set_other :
    (j k : String) (v : DbEntry) (w : World)
    → is_plain j ≡ true
    → is_plain k ≡ true
    → j ≢ k
    → lookup j (insert k v w.file) ≡ lookup j w.file
set_other j k v w _ _ ne = ground (arith, lookup-insert k j v w.file, eq_iff k j, eq_iff j k)

pub set_self : (k : String) (v : DbEntry) (w : World) → lookup k (insert k v w.file) ≡ some v
set_self k v w = ground (arith, lookup-insert k k v w.file, eq_iff k k)

abbrev pub a_file : Lowdb World
a_file = record {
  get = λ k w. lookup k w.file;
  set = λ k v w. record w { file = insert k v w.file };
  get-set_self = set_self;
  get-set_ne = set_other;
}

abbrev on_pool : (Pool → Result (Unit {0}) × Pool) → Action World (Unit {0})
on_pool f w = ((f w.pool).0, record w { pool = (f w.pool).1 })

abbrev pub a_node : Node World
a_node = record {
  lowdb = a_file;
  deploy_interest_rate = λ args w. (ok (record { address = "0xstrategy"; from = "0xadmin" }), w);
  verify_contract = λ id c w. (ok tt, w);
  get_bnft_registry = λ provider w. (ok "0xregistry", w);
  batch_init_reserve = λ c inputs w. (ok tt, w);
  batch_init_nft = λ c inputs w. (ok tt, w);
  batch_config_reserve =
      λ c args. on_pool (batch_config_reserve "0xadmin" (map to_reserve_input args));
  set_borrowing_flag_on_reserve =
      λ c assets flag. on_pool (set_borrowing_flag_on_reserve "0xadmin" assets flag);
  batch_config_nft = λ c args. on_pool (batch_config_nft "0xadmin" (map to_input args));
}

abbrev pub a_chain : RunsConfigurator a_node "0xadmin"
a_chain = record {
  configurator = "0xconfigurator";
  pool_of = λ w. w.pool;
  config_nft = λ args w h. (refl, refl);
  config_reserve = λ args w. (refl, refl);
  borrowing_flag = λ assets flag w. (refl, refl);
}

abbrev pub some_calls : AdminCalls World
some_calls = record {
  get_emergency_admin = λ provider w. (ok (w.pool.emergency_admin), w);
  get_pool_admin = λ provider w. (ok (w.pool.pool_admin), w);
  get_lend_pool_configurator = λ provider w. (ok "0xconfigurator", w);
  get_lend_pool = λ provider w. (ok "0xpool", w);
  paused = λ pool w. (ok (w.pool.is_paused), w);
  set_pool_pause = λ sender c val. on_pool (set_pool_pause sender val);
}

abbrev pub a_pool_run : RunsPool some_calls
a_pool_run = record {
  provider = "0xprovider";
  configurator = "0xconfigurator";
  pool = "0xpool";
  configurator_given = refl;
  pool_given = refl;
  pool_of = λ w. w.pool;
  asks_emergency_admin = λ w. refl;
  asks_configurator = λ w. refl;
  asks_pool = λ w. refl;
  asks_paused = λ w. refl;
  pauses = λ sender val w. (refl, refl);
}

abbrev pub some_numbers : TextNumbers
some_numbers = record { is_zero = λ text. text == "0" }

abbrev pub some_checks : AddressChecks
some_checks = record {
  is_address = λ text. not (text == "");
  is_zero_address = λ text. text == zero_address;
  zero_is_zero = refl;
}

abbrev pub some_deployments : Deployments World
some_deployments = record {
  deploy_weth9 = λ w. (ok "0xweth", w);
  deploy_wrapped_punk = λ punk w. (ok "0xwpunk", w);
  deploy_crypto_punks_market = λ w. (ok "0xpunks", w);
}

abbrev pub on_network : String → Environment
on_network name = record { fork = ""; mainnet_fork = ""; network_name = name }
