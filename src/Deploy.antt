-- ===== src/Deploy.antt =====
-- helpers/contracts-helpers.ts, helpers/contracts-getters.ts and helpers/contracts-deployments.ts: what
-- a script does with the chain. The calls of ethers are the fields of `Node`; the world `W` that
-- they read and change holds the chain and the file of deployed contracts.
use lender.Common.{◌==◌, ◌≡◌, refl, String, List, [], ◌∷◌, none, some, Bool, if◌then◌else◌, ℕ}
use lender.Db.{
  DbEntry, Lowdb, ContractInstance, register_contract_in_json_db, insert_contract_address_in_db,
}
use lender.Failure.{Action, ok, err, pure, ◌>>=◌, ◌>>◌, undefined_value}
use lender.Types.ContractId.{
  ContractId, contract_text, interest_rate, lend_pool_addresses_provider, lend_pool_configurator,
}
use lender.Types.Params.{NumericText}

-- The constructor arguments of an interest rate strategy.
pub record InterestRateArgs : Type 0 where
  pub addresses_provider : String
  pub optimal_utilization_rate : ℕ
  pub base_variable_borrow_rate : ℕ
  pub variable_rate_slope1 : ℕ
  pub variable_rate_slope2 : ℕ

-- An element of the argument of `batchInitReserve`
pub record InitReserveInput : Type 0 where
  pub b_token_impl : String
  pub debt_token_impl : String
  pub underlying_asset_decimals : ℕ
  pub interest_rate_address : String
  pub underlying_asset : String
  pub treasury : String
  pub underlying_asset_name : String
  pub b_token_name : String
  pub b_token_symbol : String
  pub debt_token_name : String
  pub debt_token_symbol : String

-- An element of the argument of `batchInitNft`
pub record InitNftInput : Type 0 where
  pub underlying_asset : String

-- An element of the argument of `batchConfigReserve`
pub record ConfigReserveArgs : Type 0 where
  pub asset : String
  pub reserve_factor : ℕ
  pub max_utilization_rate : ℕ

-- An element of the argument of `batchConfigNft`
pub record ConfigNftArgs : Type 0 where
  pub asset : String
  pub base_ltv : NumericText
  pub liquidation_threshold : ℕ
  pub liquidation_bonus : ℕ
  pub redeem_duration : ℕ
  pub auction_duration : ℕ
  pub redeem_fine : ℕ
  pub redeem_threshold : ℕ
  pub min_bid_fine : ℕ
  pub max_supply : ℕ
  pub max_token_id : ℕ
  pub max_collateral_cap : ℕ

-- The file of deployed contracts, and the calls of the chain: each is sent by the deployer to the
-- contract at the address that comes first, and is over when its transaction is mined.
pub record Node (W : Type 0) : Type 0 where
  pub lowdb : Lowdb W
  pub deploy_interest_rate : InterestRateArgs → Action W ContractInstance
  pub verify_contract : String → ContractInstance → Action W (Unit {0})
  pub get_bnft_registry : String → Action W String
  pub batch_init_reserve : String → List InitReserveInput → Action W (Unit {0})
  pub batch_init_nft : String → List InitNftInput → Action W (Unit {0})
  pub batch_config_reserve : String → List ConfigReserveArgs → Action W (Unit {0})
  pub set_borrowing_flag_on_reserve : String → List String → Bool → Action W (Unit {0})
  pub batch_config_nft : String → List ConfigNftArgs → Action W (Unit {0})

-- One call for each element, in order; the first that fails ends the run.
abbrev pub each {ℓ κ} :
    {S : Type ℓ} {A : Type κ} → (A → Action S (Unit {0})) → List A → Action S (Unit {0})
each f [] s = (ok tt, s)
each f (x ∷ xs) s = (f x >> each f xs) s

module _ {W : Type 0} (node : Node W) where
  -- `(await getDb(network).get(id).value()).address`
  unfoldable pub address_on_file : ContractId → Action W String
  address_on_file id w = elim (node.lowdb.get (contract_text id) w) [
    | none ↦ (err undefined_value, w)
    | some entry ↦ (ok entry.address, w)
  ]

  pub address_on_file-found :
      (id : ContractId) (w : W) {entry : DbEntry}
      → node.lowdb.get (contract_text id) w ≡ some entry
      → address_on_file id w ≡ (ok entry.address, w)
  unfolding address_on_file
  address_on_file-found id w h = rw (h, address_on_file) refl

  -- `getLendPoolAddressesProvider()`, the address of the contract that it gives
  unfoldable pub get_lend_pool_addresses_provider : Action W String
  get_lend_pool_addresses_provider = address_on_file lend_pool_addresses_provider

  -- `getLendPoolConfiguratorProxy()`, the address of the contract that it gives
  unfoldable pub get_lend_pool_configurator_proxy : Action W String
  get_lend_pool_configurator_proxy = address_on_file lend_pool_configurator

  -- A getter that is given an address: `address || (await getDb(network).get(id).value()).address`
  unfoldable pub contract_at : String → ContractId → Action W String
  contract_at address id = if address == "" then address_on_file id else pure address

  -- `withSaveAndVerify`
  unfoldable pub with_save_and_verify : ContractInstance → String → Bool → Action W ContractInstance
  with_save_and_verify instance_ id verify w =
      let saved = register_contract_in_json_db node.lowdb id instance_ w in
      ((if verify then node.verify_contract id instance_ else pure tt) >> pure instance_) saved

  -- `deployInterestRateWithID`
  unfoldable pub deploy_interest_rate_with_id :
      String → InterestRateArgs → Bool → Action W ContractInstance
  deploy_interest_rate_with_id id args verify = do
    instance_ ← node.deploy_interest_rate args
    with_save_and_verify instance_ id verify

  -- `deployInterestRate`
  unfoldable pub deploy_interest_rate : InterestRateArgs → Bool → Action W ContractInstance
  deploy_interest_rate = deploy_interest_rate_with_id (contract_text interest_rate)

  -- `deployRateStrategy`: its `switch` has only a default.
  unfoldable pub deploy_rate_strategy : String → InterestRateArgs → Bool → Action W String
  deploy_rate_strategy strategy_name args verify = do
    instance_ ← deploy_interest_rate args verify
    pure instance_.address

  -- `rawInsertContractAddressInDb`
  unfoldable pub raw_insert_contract_address_in_db : String → String → Action W (Unit {0})
  raw_insert_contract_address_in_db id address w =
      (ok tt, insert_contract_address_in_db node.lowdb id address w)
