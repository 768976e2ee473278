-- ===== src/Deployments/Found.antt =====
-- helpers/contracts-deployments.ts and helpers/contracts-getters.ts: a getter that is called without an
-- address finds the contract that was deployed last under its name.
use lender.Common.{String, Bool, true, false, ◌==◌, ◌≡◌, sym, ◌∙◌, []}
use lender.Common.Dict.{Dict}
use lender.Db.{ContractInstance, register_contract_in_json_db, insert_contract_address_in_db}
use lender.Deploy.{
  Node, with_save_and_verify, raw_insert_contract_address_in_db, contract_at, address_on_file-found,
}
use lender.Deployments.{Factories, deploy_as_implementation}
use lender.Deployments.OnFile.{LeavesFile, save_file, differ}
use lender.Deployments.Plain.{contract_text-plain}
use lender.Failure.{ok, pure, ◌>>◌}
use lender.Failure.Laws.{bind-ok, bind-passed}
use lender.Types.ContractId.{ContractId, contract_text}
use mathlib.Core.Path.{subst}

pub ok-same {ℓ} : {A : Type ℓ} {a b : A} → ok a ≡ ok b → a ≡ b
ok-same h = cc

module _ {W : Type 0} (node : Node W) (factories : Factories W)
    (leaves : LeavesFile node factories) where
  -- What is saved is what is returned.
  pub saved_instance :
      (j : ContractInstance) (id : String) (verify : Bool) (w : W) {i : ContractInstance}
      → (with_save_and_verify node j id verify w).0 ≡ ok i
      → j ≡ i
  unfolding with_save_and_verify
  saved_instance j id false w e = ok-same e
  saved_instance j id true w e =
      let (_, _, same) =
        bind-passed (node.verify_contract id j) (λ _. pure j)
          (register_contract_in_json_db node.lowdb id j w) e in
      ok-same same

  abbrev Found : W → ContractId → ContractId → ContractInstance → Type 0
  Found w impl id i =
      (contract_at node "" id w ≡ (ok i.address, w))
      × (contract_at node "" impl w ≡ (ok i.address, w))

  -- Both names have the address of the contract after its implementation and it are saved.
  both_on_file :
      (j : ContractInstance) (impl id : ContractId) (verify : Bool) (w : W)
      → (contract_text impl == contract_text id) ≡ false
      → let after =
          (with_save_and_verify node j
            (contract_text id)
            verify
            (insert_contract_address_in_db node.lowdb (contract_text impl) j.address w)).1 in
        (contract_at node "" id after ≡ (ok j.address, after))
        × (contract_at node "" impl after ≡ (ok j.address, after))
  unfolding contract_at register_contract_in_json_db insert_contract_address_in_db
  both_on_file j impl id verify w other =
      let before = insert_contract_address_in_db node.lowdb (contract_text impl) j.address w in
      let saved = save_file node factories leaves j (contract_text id) verify before in
      (
        address_on_file-found node id _
            (saved (contract_text id) ∙ node.lowdb.get-set_self _ _ before),
        address_on_file-found node impl _ (
            saved (contract_text impl)
            ∙ node.lowdb.get-set_ne _ _ _ before (contract_text-plain impl) (contract_text-plain id)
                (differ (contract_text impl) (contract_text id) other)
            ∙ node.lowdb.get-set_self _ _ w),
      )

  -- Under the same conditions on deployments and verifications, where an implementation and the
  -- contract that stands for it have different names and the deployment succeeds, the getters of
  -- both names, called without an address, give the address of the contract that the deployment
  -- returns, and change nothing.
  pub deployed_is_found :
      (factory : String) (libraries : Dict String) (impl id : ContractId) (verify : Bool) (w : W)
      {i : ContractInstance}
      → (contract_text impl == contract_text id) ≡ false
      → (deploy_as_implementation node factories factory libraries
          (contract_text impl)
          (contract_text id)
          verify
          w).0
        ≡ ok i
      → let after =
          (deploy_as_implementation node factories factory libraries
            (contract_text impl)
            (contract_text id)
            verify
            w).1 in
        (contract_at node "" id after ≡ (ok i.address, after))
        × (contract_at node "" impl after ≡ (ok i.address, after))
  unfolding deploy_as_implementation raw_insert_contract_address_in_db
  deployed_is_found factory libraries impl id verify w {i = i} other e =
      let deploy = factories.deploy factory libraries [] in
      let save = λ (j : ContractInstance).
        raw_insert_contract_address_in_db node (contract_text impl) j.address
        >> with_save_and_verify node j (contract_text id) verify in
      let (j, made, rest) = bind-passed deploy save w e in
      subst (λ r. Found (r.1) impl id i) (sym (bind-ok deploy save made))
        (subst (Found _ impl id) (saved_instance j (contract_text id) verify _ rest)
          (both_on_file j impl id verify _ other))
