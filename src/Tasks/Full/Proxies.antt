-- ===== src/Tasks/Full/Proxies.antt =====
-- tasks/full: where the tasks for proxies leave the proxy.
use lender.Common.{
  List, String, Bool, true, false, ◌≡◌, refl, sym, ap, ◌∙◌, Option, none, some, if◌then◌else◌,
}
use lender.Common.Dict.{Dict}
use lender.Db.{
  DbEntry, ContractInstance, insert_contract_address_in_db, register_contract_in_json_db,
}
use lender.Deploy.{Node, raw_insert_contract_address_in_db, with_save_and_verify}
use lender.Deployments.{Factories, Argument, deploy_and_save}
use lender.Deployments.Found.{saved_instance, ok-same}
use lender.Deployments.Gateways.{deploy_bend_upgradeable_proxy}
use lender.Deployments.OnFile.{LeavesFile, save_file}
use lender.Failure.{Action, ok, pure, ◌>>=◌, ◌>>◌}
use lender.Failure.Laws.{bind-ok, bind-passed}
use lender.Getters.{value_address}
use lender.Tasks.Full.{ContractCalls, defined, upgrade_or_deploy}
use lender.Utils.Address.{AddressChecks, not_falsy_or_zero_address}
use mathlib.Core.Path.{subst}

module _ {W : Type 0} (node : Node W) (factories : Factories W) (checks : AddressChecks)
    (calls : ContractCalls W) where
  -- Upgrades, and what is done with a new proxy, do not write the file.
  pub record CallsLeaveFile (after : String → Action W (Unit {0})) : Type 0 where
    pub upgrade_file :
        (owner proxy_admin proxy impl : String) (w : W) (k : String)
        → node.lowdb.get k ((calls.upgrade owner proxy_admin proxy impl w).1) ≡ node.lowdb.get k w
    pub after_file :
        (proxy : String) (w : W) (k : String)
        → node.lowdb.get k ((after proxy w).1) ≡ node.lowdb.get k w

  abbrev FoundAt : String → String → W → Type 0
  FoundAt id a w = value_address node id w ≡ (ok a, w)

  on_file_found :
      (id : String) (w : W) {e : DbEntry} → node.lowdb.get id w ≡ some e → FoundAt id (e.address) w
  unfolding value_address
  on_file_found id w h = rw (h, value_address) refl

  -- An action that leaves the file, and then the result.
  after_action :
      (m : Action W (Unit {0})) (id b : String) (w : W) {a : String} {e : DbEntry}
      → ((k : String) → node.lowdb.get k ((m w).1) ≡ node.lowdb.get k w)
      → node.lowdb.get id w ≡ some e
      → e.address ≡ b
      → ((m >> pure b) w).0 ≡ ok a
      → FoundAt id a (((m >> pure b) w).1)
  after_action m id b w {a = a} file on same h =
      let (_, made, rest) = bind-passed m (λ _. pure b) w h in
      subst (λ r. FoundAt id a (r.1)) (sym (bind-ok m (λ _. pure b) made))
        (subst (λ c. FoundAt id c ((m w).1)) (same ∙ ok-same rest)
          (on_file_found id _ (file id ∙ on)))

  module _ (leaves : LeavesFile node factories) (after : String → Action W (Unit {0}))
      (stays : CallsLeaveFile after) where
    upgraded_found :
        (id proxy proxy_admin owner impl : String) (w : W) {a : String}
        → let upgrade = (do
          raw_insert_contract_address_in_db node id proxy
          calls.upgrade owner proxy_admin proxy impl
          pure proxy) in
          (upgrade w).0 ≡ ok a → FoundAt id a ((upgrade w).1)
    unfolding raw_insert_contract_address_in_db insert_contract_address_in_db
    upgraded_found id proxy proxy_admin owner impl w h =
        after_action (calls.upgrade owner proxy_admin proxy impl) id proxy _
          (stays.upgrade_file owner proxy_admin proxy impl _) (node.lowdb.get-set_self id _ w) refl
          h

    -- A contract that is deployed and saved is the entry of its name.
    saved_entry :
        (factory id : String) (libraries : Dict String) (args : List Argument) (verify : Bool)
        (w : W) {c : ContractInstance}
        → let deploy = deploy_and_save node factories factory libraries args id verify in
          (deploy w).0 ≡ ok c
          → node.lowdb.get id ((deploy w).1)
            ≡ some (record { address = c.address; deployer = some c.from })
    unfolding deploy_and_save register_contract_in_json_db
    saved_entry factory id libraries args verify w {c = c} h =
        let make = factories.deploy factory libraries args in
        let save = λ (j : ContractInstance). with_save_and_verify node j id verify in
        let (j, made, rest) = bind-passed make save w h in
        subst
          (λ r.
            node.lowdb.get id (r.1) ≡ some (record { address = c.address; deployer = some c.from }))
          (sym (bind-ok make save made))
          (save_file node factories leaves j id verify _ id
            ∙ node.lowdb.get-set_self id _ _
            ∙ ap (λ i. some (record { address = i.address; deployer = some i.from }))
                (saved_instance node factories leaves j id verify _ rest))

    deployed_found :
        (id proxy_admin impl init_data : String) (verify : Bool) (w : W) {a : String}
        → let deploy = (do
          proxy ← deploy_bend_upgradeable_proxy node factories id proxy_admin impl init_data verify
          after proxy.address
          pure proxy.address) in
          (deploy w).0 ≡ ok a → FoundAt id a ((deploy w).1)
    unfolding deploy_bend_upgradeable_proxy
    deployed_found id proxy_admin impl init_data verify w {a = a} h =
        let make =
          deploy_bend_upgradeable_proxy node factories id proxy_admin impl init_data verify in
        let rest = λ (c : ContractInstance). after c.address >> pure c.address in
        let (c, made, ran) = bind-passed make rest w h in
        subst (λ r. FoundAt id a (r.1)) (sym (bind-ok make rest made))
          (after_action (after c.address) id c.address _ (stays.after_file c.address _)
            (saved_entry _ id _ _ verify w (ap (λ r. r.0) made)) refl ran)

    upgraded_same :
        (id proxy proxy_admin owner impl : String) (w : W) {a : String}
        → let upgrade = (do
          raw_insert_contract_address_in_db node id proxy
          calls.upgrade owner proxy_admin proxy impl
          pure proxy) in
          (upgrade w).0 ≡ ok a → some proxy ≡ some a
    unfolding raw_insert_contract_address_in_db insert_contract_address_in_db
    upgraded_same id proxy proxy_admin owner impl w h =
        let (_, _, rest) =
          bind-passed (calls.upgrade owner proxy_admin proxy impl) (λ _. pure proxy) _ h in
        ap some (ok-same rest)

    -- The two branches, by the test of the address.
    either_found :
        (id : String) (address : Option String) (proxy_admin owner impl init_data : String)
        (verify : Bool) (w : W) {a : String} (usable : Bool)
        → not_falsy_or_zero_address checks address ≡ usable
        → let run =
            (if usable
              then (do
                proxy ← defined address
                raw_insert_contract_address_in_db node id proxy
                calls.upgrade owner proxy_admin proxy impl
                pure proxy)
              else (do
                proxy ←
                    deploy_bend_upgradeable_proxy node factories id proxy_admin impl init_data
                      verify
                after proxy.address
                pure proxy.address)) in
          (run w).0 ≡ ok a → FoundAt id a ((run w).1) × (usable ≡ true → address ≡ some a)
    unfolding not_falsy_or_zero_address
    either_found id none proxy_admin owner impl init_data verify w true e h = absurd cc
    either_found id (some proxy) proxy_admin owner impl init_data verify w true e h = (
      upgraded_found id proxy proxy_admin owner impl w h,
      λ _. upgraded_same id proxy proxy_admin owner impl w h,
    )
    either_found id address proxy_admin owner impl init_data verify w false e h =
        (deployed_found id proxy_admin impl init_data verify w h, λ e. absurd cc)

    -- Where deployments, verifications, upgrades and what is done with a new proxy leave the
    -- file alone, the part of the tasks that upgrades a proxy or deploys a new one, when it
    -- succeeds, leaves on file, under the name of the proxy, the address that it gives; and
    -- where the address that it was called with is usable, it gives that one.
    pub proxy_is_found :
        (id : String) (address : Option String) (proxy_admin owner impl init_data : String)
        (verify : Bool) (w : W) {a : String}
        → let run =
            upgrade_or_deploy node factories checks calls id address proxy_admin owner impl
              init_data verify after in
          (run w).0 ≡ ok a
          → (value_address node id ((run w).1) ≡ (ok a, (run w).1))
            × (not_falsy_or_zero_address checks address ≡ true → address ≡ some a)
    unfolding upgrade_or_deploy
    proxy_is_found id address proxy_admin owner impl init_data verify w =
        either_found id address proxy_admin owner impl init_data verify w _ refl
