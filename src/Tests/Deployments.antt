-- ===== src/Tests/Deployments.antt =====
-- Tests of the deployments, with factories that give every contract one address.
use lender.Common.{refl, [], ◌≡◌, true, String, All, false, ◌==◌}
use lender.Common.Dict.{Dict}
use lender.Db.{register_contract_in_json_db, get_contract_address_in_db, address_at_db}
use lender.Deploy.{contract_at, with_save_and_verify, raw_insert_contract_address_in_db}
use lender.Deployments.{Factories, address_in_db, deploy_and_save, deploy_as_implementation}
use lender.Deployments.Libraries.{
  deploy_bend_libraries, deploy_configurator_libraries, deploy_lend_pool_libraries,
  get_lend_pool_libraries, deploy_generic_logic, deploy_reserve_logic_library,
  deploy_nft_logic_library, deploy_validation_logic, deploy_over_validation,
  deploy_supply_logic_library, deploy_borrow_logic_library, deploy_liquidate_logic_library,
  deploy_configurator_logic_library, deploy_linked,
}
use lender.Deployments.Found.{deployed_is_found}
use lender.Deployments.Linkable.{libraries_linkable, get-deploy_bend_libraries}
use lender.Deployments.OnFile.{LeavesFile}
use lender.Failure.{ok}
use lender.Tests.World.{World, a_node, a_world}
use lender.Types.ContractId.{contract_text, lend_pool_loan, lend_pool_loan_impl, configurator_logic}

abbrev pub some_factories : Factories World
some_factories = record {
  deploy =
      λ factory libraries args w. (ok (record { address = "0xdeployed"; from = "0xadmin" }), w);
  deploy_artifact = λ id libraries w. (ok (record { address = "0xlinked"; from = "0xadmin" }), w);
}

abbrev pub leave_file : LeavesFile a_node some_factories
leave_file = record {
  deploy_file = λ factory libraries args w k. refl;
  artifact_file = λ id libraries w k. refl;
  verify_file = λ id instance_ w k. refl;
  deploy_address = λ factory libraries args w. refl;
  artifact_address = λ id libraries w. refl;
}

ran : (deploy_bend_libraries a_node some_factories true a_world).0 ≡ ok tt
unfolding deploy_bend_libraries deploy_configurator_libraries deploy_lend_pool_libraries
    deploy_generic_logic deploy_reserve_logic_library deploy_nft_logic_library
    deploy_validation_logic deploy_over_validation deploy_supply_logic_library
    deploy_borrow_logic_library deploy_liquidate_logic_library deploy_configurator_logic_library
    deploy_and_save deploy_linked address_in_db with_save_and_verify register_contract_in_json_db
    get_contract_address_in_db address_at_db
ran = refl

abbrev after : World
after = (deploy_bend_libraries a_node some_factories true a_world).1

libraries_linkable_example :
    ((libs : Dict String) × (get_lend_pool_libraries a_node some_factories after ≡ (ok libs, after))
      × All (λ e. (e.1 == "") ≡ false) libs)
    × ((logic : String) × (address_in_db a_node some_factories configurator_logic after
          ≡ (ok logic, after))
        × ((logic == "") ≡ false))
libraries_linkable_example = libraries_linkable a_node some_factories leave_file true a_world ran

get-deploy_bend_libraries_example :
    a_node.lowdb.get "DebtToken" after ≡ a_node.lowdb.get "DebtToken" a_world
get-deploy_bend_libraries_example =
    get-deploy_bend_libraries a_node some_factories leave_file true a_world "DebtToken" refl
      (refl, (refl, (refl, (refl, (refl, (refl, (refl, (refl, tt))))))))

abbrev loan_after : World
loan_after =
    (deploy_as_implementation a_node some_factories "LendPoolLoan" []
      (contract_text lend_pool_loan_impl) (contract_text lend_pool_loan) true a_world).1

loan_deployed :
    (deploy_as_implementation a_node some_factories "LendPoolLoan" []
      (contract_text lend_pool_loan_impl)
      (contract_text lend_pool_loan)
      true
      a_world).0
    ≡ ok (record { address = "0xdeployed"; from = "0xadmin" })
unfolding deploy_as_implementation raw_insert_contract_address_in_db with_save_and_verify
    register_contract_in_json_db
loan_deployed = refl

deployed_is_found_example :
    (contract_at a_node "" lend_pool_loan loan_after ≡ (ok "0xdeployed", loan_after))
    × (contract_at a_node "" lend_pool_loan_impl loan_after ≡ (ok "0xdeployed", loan_after))
deployed_is_found_example =
    deployed_is_found a_node some_factories leave_file "LendPoolLoan" [] lend_pool_loan_impl
      lend_pool_loan true a_world refl loan_deployed
