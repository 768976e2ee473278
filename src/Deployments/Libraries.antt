-- ===== src/Deployments/Libraries.antt =====
-- helpers/contracts-deployments.ts: the libraries of the contracts, and the contracts that are linked
-- with them. A library is linked under its placeholder, which stands for it in the bytecode.
use lender.Common.{String, Bool, [], ◌∷◌}
use lender.Common.Dict.{Dict}
use lender.Db.{ContractInstance}
use lender.Deploy.{Node, with_save_and_verify}
use lender.Deployments.{Factories, deploy_and_save, deploy_as_implementation, address_in_db}
use lender.Failure.{Action, pure, ◌>>=◌, ◌>>◌}
use lender.Types.ContractId.{
  contract_text, generic_logic, reserve_logic, nft_logic, validation_logic, supply_logic,
  borrow_logic, liquidate_logic, configurator_logic, lend_pool, lend_pool_impl,
  lend_pool_configurator, lend_pool_configurator_impl,
}

abbrev pub placeholder_validation_logic : String
placeholder_validation_logic = "__$5201a97c05ba6aa659e2f36a933dd51801$__"

abbrev pub placeholder_reserve_logic : String
placeholder_reserve_logic = "__$d3b4366daeb9cadc7528af6145b50b2183$__"

abbrev pub placeholder_nft_logic : String
placeholder_nft_logic = "__$eceb79063fab52ea3826f3ee75ecd7f36d$__"

abbrev pub placeholder_supply_logic : String
placeholder_supply_logic = "__$2f7c76ee15bdc1d8f3b34a04b86951fc56$__"

abbrev pub placeholder_borrow_logic : String
placeholder_borrow_logic = "__$77c5a84c43428e206d5bf08427df63fefa$__"

abbrev pub placeholder_liquidate_logic : String
placeholder_liquidate_logic = "__$ce70b23849b5cbed90e6e2f622d8887206$__"

abbrev pub placeholder_configurator_logic : String
placeholder_configurator_logic = "__$3b2ad8f1ea56cc7a60e9a93596bbfe9178$__"

module _ {W : Type 0} (node : Node W) (factories : Factories W) where
  -- `deployGenericLogic`
  unfoldable pub deploy_generic_logic : Bool → Action W ContractInstance
  deploy_generic_logic =
      deploy_and_save node factories "GenericLogic" [] [] (contract_text generic_logic)

  -- `deployReserveLogicLibrary`
  unfoldable pub deploy_reserve_logic_library : Bool → Action W ContractInstance
  deploy_reserve_logic_library =
      deploy_and_save node factories "ReserveLogic" [] [] (contract_text reserve_logic)

  -- What `deployNftLogicLibrary` and `deployValidationLogic` share: the artifact, linked and deployed.
  unfoldable pub deploy_linked : String → Dict String → Bool → Action W ContractInstance
  deploy_linked id libraries verify = do
    instance_ ← factories.deploy_artifact id libraries
    with_save_and_verify node instance_ id verify

  -- `deployNftLogicLibrary`
  unfoldable pub deploy_nft_logic_library : Bool → Action W ContractInstance
  deploy_nft_logic_library = deploy_linked (contract_text nft_logic) []

  -- `deployValidationLogic`
  unfoldable pub deploy_validation_logic :
      ContractInstance → ContractInstance → Bool → Action W ContractInstance
  deploy_validation_logic reserve generic = deploy_linked (contract_text validation_logic) (
      (contract_text reserve_logic, reserve.address)
      ∷ (contract_text generic_logic, generic.address)
      ∷ [])

  -- What the libraries of supply, borrowing and liquidation share.
  unfoldable pub deploy_over_validation : String → Bool → Action W ContractInstance
  deploy_over_validation name verify = do
    validation ← address_in_db node factories validation_logic
    deploy_and_save node factories name ((placeholder_validation_logic, validation) ∷ []) [] name
        verify

  -- `deploySupplyLogicLibrary`
  unfoldable pub deploy_supply_logic_library : Bool → Action W ContractInstance
  deploy_supply_logic_library = deploy_over_validation (contract_text supply_logic)

  -- `deployBorrowLogicLibrary`
  unfoldable pub deploy_borrow_logic_library : Bool → Action W ContractInstance
  deploy_borrow_logic_library = deploy_over_validation (contract_text borrow_logic)

  -- `deployLiquidateLogicLibrary`
  unfoldable pub deploy_liquidate_logic_library : Bool → Action W ContractInstance
  deploy_liquidate_logic_library = deploy_over_validation (contract_text liquidate_logic)

  -- `deployLendPoolLibraries`
  unfoldable pub deploy_lend_pool_libraries : Bool → Action W (Unit {0})
  deploy_lend_pool_libraries verify = do
    generic ← deploy_generic_logic verify
    reserve ← deploy_reserve_logic_library verify
    _ ← deploy_nft_logic_library verify
    _ ← deploy_validation_logic reserve generic verify
    _ ← deploy_supply_logic_library verify
    _ ← deploy_borrow_logic_library verify
    _ ← deploy_liquidate_logic_library verify
    pure tt

  -- `deployConfiguratorLogicLibrary`
  unfoldable pub deploy_configurator_logic_library : Bool → Action W ContractInstance
  deploy_configurator_logic_library =
      deploy_and_save node factories "ConfiguratorLogic" [] [] (contract_text configurator_logic)

  -- `deployConfiguratorLibraries`
  unfoldable pub deploy_configurator_libraries : Bool → Action W (Unit {0})
  deploy_configurator_libraries verify = do _ ← deploy_configurator_logic_library verify; pure tt

  -- `deployBendLibraries`
  unfoldable pub deploy_bend_libraries : Bool → Action W (Unit {0})
  deploy_bend_libraries verify = do
    deploy_lend_pool_libraries verify
    deploy_configurator_libraries verify

  -- `getLendPoolLibraries`; it also looks up two libraries that it does not link.
  unfoldable pub get_lend_pool_libraries : Action W (Dict String)
  get_lend_pool_libraries = do
    reserve ← address_in_db node factories reserve_logic
    nft ← address_in_db node factories nft_logic
    _ ← address_in_db node factories validation_logic
    _ ← address_in_db node factories generic_logic
    supply ← address_in_db node factories supply_logic
    borrow ← address_in_db node factories borrow_logic
    liquidate ← address_in_db node factories liquidate_logic
    pure (
        (placeholder_reserve_logic, reserve)
        ∷ (placeholder_nft_logic, nft)
        ∷ (placeholder_supply_logic, supply)
        ∷ (placeholder_borrow_logic, borrow)
        ∷ (placeholder_liquidate_logic, liquidate)
        ∷ [])

  -- `deployLendPool`
  unfoldable pub deploy_lend_pool : Bool → Action W ContractInstance
  deploy_lend_pool verify = do
    libraries ← get_lend_pool_libraries
    deploy_as_implementation node factories "LendPool" libraries (contract_text lend_pool_impl)
        (contract_text lend_pool) verify

  -- `deployLendPoolConfigurator`
  unfoldable pub deploy_lend_pool_configurator : Bool → Action W ContractInstance
  deploy_lend_pool_configurator verify = do
    logic ← address_in_db node factories configurator_logic
    deploy_as_implementation node factories "LendPoolConfigurator"
        ((placeholder_configurator_logic, logic) ∷ []) (contract_text lend_pool_configurator_impl)
        (contract_text lend_pool_configurator) verify
