-- ===== src/Deployments/Linkable.antt =====
-- helpers/contracts-deployments.ts: once the libraries are deployed, what links against them finds them.
use lender.Common.{String, Bool, true, false, All, ◌==◌, ◌≡◌, refl, ap, List, [], ◌∷◌}
use lender.Common.Dict.{Dict}
use lender.Db.{is_plain, address_at_db, get_contract_address_in_db}
use lender.Deploy.{Node}
use lender.Deployments.{Factories, address_in_db}
use lender.Deployments.Libraries.{
  deploy_generic_logic, deploy_reserve_logic_library, deploy_nft_logic_library,
  deploy_validation_logic, deploy_over_validation, deploy_supply_logic_library,
  deploy_borrow_logic_library, deploy_liquidate_logic_library, deploy_lend_pool_libraries,
  deploy_configurator_logic_library, deploy_configurator_libraries, deploy_bend_libraries,
  get_lend_pool_libraries, placeholder_reserve_logic, placeholder_nft_logic,
  placeholder_supply_logic, placeholder_borrow_logic, placeholder_liquidate_logic,
}
use lender.Deployments.OnFile.{LeavesFile, OnFile}
use lender.Deployments.Stage.{
  AllOnFile, Stage, Stage-pure, Stage-bind, Stage-deploy_and_save, Stage-deploy_linked,
}
use mathlib.Core.List.{◌++◌}
use lender.Failure.{ok, ◌>>=◌}
use lender.Types.ContractId.{
  ContractId, contract_text, generic_logic, reserve_logic, nft_logic, validation_logic,
  supply_logic, borrow_logic, liquidate_logic, configurator_logic,
}

-- The libraries that the pool links against, and all libraries.
abbrev pool_libraries : List String
pool_libraries =
    contract_text generic_logic
    ∷ contract_text reserve_logic
    ∷ contract_text nft_logic
    ∷ contract_text validation_logic
    ∷ contract_text supply_logic
    ∷ contract_text borrow_logic
    ∷ contract_text liquidate_logic
    ∷ []

abbrev pub library_names : List String
library_names = pool_libraries ++ (contract_text configurator_logic ∷ [])

module _ {W : Type 0} (node : Node W) (factories : Factories W) where
  contract_found :
      (id : ContractId) (w : W) (h : OnFile node (contract_text id) w)
      → get_contract_address_in_db node.lowdb (contract_text id) w ≡ ok (h.entry.address)
  unfolding get_contract_address_in_db address_at_db
  contract_found id w h = rw (get_contract_address_in_db, address_at_db, h.found, h.address) refl

  -- A look-up writes nothing, and succeeds where the name is on file.
  address_found :
      (id : ContractId) (w : W) (h : OnFile node (contract_text id) w)
      → address_in_db node factories id w ≡ (ok (h.entry.address), w)
  unfolding address_in_db
  address_found id w h = ap (λ r. (r, w)) (contract_found id w h)

  Stage-address_in_db : (id : ContractId) → Stage node [] (address_in_db node factories id)
  unfolding address_in_db
  Stage-address_in_db id = record {
    keeps = λ w k h. h;
    puts = λ w e. tt;
    frames = λ w k plain h. refl;
  }

  module _ (leaves : LeavesFile node factories) where
    Stage-over_validation :
        (name : String) (verify : Bool)
        → is_plain name ≡ true
        → Stage node (name ∷ []) (deploy_over_validation node factories name verify)
    unfolding deploy_over_validation
    Stage-over_validation name verify plain =
        Stage-bind node _ _ (Stage-address_in_db validation_logic)
          (λ a. Stage-deploy_and_save node factories leaves name _ [] name verify plain)

    Stage-pool_libraries :
        (verify : Bool)
        → Stage node pool_libraries (deploy_lend_pool_libraries node factories verify)
    unfolding deploy_lend_pool_libraries deploy_generic_logic deploy_reserve_logic_library
        deploy_nft_logic_library deploy_validation_logic deploy_supply_logic_library
        deploy_borrow_logic_library deploy_liquidate_logic_library
    Stage-pool_libraries verify =
        Stage-bind node _ _ (Stage-deploy_and_save node factories leaves _ _ _ _ verify refl)
          (λ generic.
            Stage-bind node _ _ (Stage-deploy_and_save node factories leaves _ _ _ _ verify refl)
              (λ reserve.
                Stage-bind node _ _ (Stage-deploy_linked node factories leaves _ _ verify refl)
                  (λ _.
                    Stage-bind node _ _ (Stage-deploy_linked node factories leaves _ _ verify refl)
                      (λ _. Stage-bind node _ _ (Stage-over_validation _ verify refl) (λ _.
                        Stage-bind node _ _ (Stage-over_validation _ verify refl) (λ _.
                          Stage-bind node _ _ (Stage-over_validation _ verify refl)
                            (λ _. Stage-pure node tt)))))))

    Stage-libraries :
        (verify : Bool) → Stage node library_names (deploy_bend_libraries node factories verify)
    unfolding deploy_bend_libraries deploy_configurator_libraries deploy_configurator_logic_library
    Stage-libraries verify = Stage-bind node _ _ (Stage-pool_libraries verify) (λ _.
        Stage-bind node _ _ (Stage-deploy_and_save node factories leaves _ _ _ _ verify refl)
          (λ _. Stage-pure node tt))

    -- The libraries of the pool are looked up one after the other.
    pool_libraries_found :
        (w : W)
        → AllOnFile node pool_libraries w
        → (libs : Dict String) × (get_lend_pool_libraries node factories w ≡ (ok libs, w))
          × (All (λ e. (e.1 == "") ≡ false) libs)
    unfolding get_lend_pool_libraries address_in_db
    pool_libraries_found w
          (generic, (reserve, (nft, (validation, (supply, (borrow, (liquidate, _))))))) =
        (
          (placeholder_reserve_logic, reserve.entry.address)
              ∷ (placeholder_nft_logic, nft.entry.address)
              ∷ (placeholder_supply_logic, supply.entry.address)
              ∷ (placeholder_borrow_logic, borrow.entry.address)
              ∷ (placeholder_liquidate_logic, liquidate.entry.address)
              ∷ [],
          rw
              (
                get_lend_pool_libraries,
                ◌>>=◌,
                address_in_db,
                contract_found reserve_logic w reserve,
                contract_found nft_logic w nft,
                contract_found validation_logic w validation,
                contract_found generic_logic w generic,
                contract_found supply_logic w supply,
                contract_found borrow_logic w borrow,
                contract_found liquidate_logic w liquidate,
              )
              refl,
          (
            reserve.address,
            (nft.address, (supply.address, (borrow.address, (liquidate.address, tt)))),
          ),
        )

    -- Where deployments and verifications leave the file alone and each deployed contract has
    -- an address, a run that deploys all libraries without failure leaves a file in which the
    -- libraries of the pool, and that of the configurator, are all found, each at an address
    -- that is not empty, and looking them up changes nothing.
    pub libraries_linkable :
        (verify : Bool) (w : W)
        → (deploy_bend_libraries node factories verify w).0 ≡ ok tt
        → let after = (deploy_bend_libraries node factories verify w).1 in
          ((libs : Dict String) × (get_lend_pool_libraries node factories after ≡ (ok libs, after))
            × (All (λ e. (e.1 == "") ≡ false) libs))
          × ((logic : String) × (address_in_db node factories configurator_logic after
                ≡ (ok logic, after))
              × ((logic == "") ≡ false))
    libraries_linkable verify w e =
        let (g, (r, (n, (v, (s, (b, (l, (c, _)))))))) = (Stage-libraries verify).puts w e in
        (
          pool_libraries_found _ (g, (r, (n, (v, (s, (b, (l, tt))))))),
          (c.entry.address, address_found configurator_logic _ c, c.address),
        )

    -- Under the same conditions on deployments and verifications, the file holds after the
    -- deployment of the libraries, whether the run is complete or fails at any of its steps,
    -- what it held before at every name that lowdb does not read as a path, but for the names
    -- of the eight libraries.
    pub get-deploy_bend_libraries :
        (verify : Bool) (w : W) (k : String)
        → is_plain k ≡ true
        → All (λ j. (k == j) ≡ false) library_names
        → node.lowdb.get k ((deploy_bend_libraries node factories verify w).1) ≡ node.lowdb.get k w
    get-deploy_bend_libraries verify w k = (Stage-libraries verify).frames w k
