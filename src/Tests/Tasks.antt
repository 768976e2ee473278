-- ===== src/Tests/Tasks.antt =====
-- Tests of the tasks for proxies, with calls that only succeed.
use lender.Common.{String, true, ◌≡◌, refl, Option, some}
use lender.Db.{insert_contract_address_in_db}
use lender.Deploy.{raw_insert_contract_address_in_db}
use lender.Failure.{ok}
use lender.Getters.{value_address}
use lender.Tasks.Full.{ContractCalls, upgrade_or_deploy}
use lender.Tasks.Full.Proxies.{CallsLeaveFile, proxy_is_found}
use lender.Tests.Deployments.{some_factories, leave_file}
use lender.Tests.World.{World, a_node, a_world, some_checks}
use lender.Utils.Address.{not_falsy_or_zero_address}

abbrev contract_calls : ContractCalls World
contract_calls = record {
  owner = λ contract w. (ok "0xowner", w);
  upgrade = λ owner proxy_admin proxy impl w. (ok tt, w);
  upgrade_and_call = λ owner proxy_admin proxy impl init_data w. (ok tt, w);
  set_aggregators = λ owner oracle tokens aggregators w. (ok tt, w);
  set_assets = λ owner oracle tokens w. (ok tt, w);
  authorize_lend_pool_nft = λ gateway addresses w. (ok tt, w);
  authorize_lend_pool_erc20 = λ gateway addresses w. (ok tt, w);
  authorize_caller_whitelist = λ gateway callers flag w. (ok tt, w);
  encode = λ contract function args. function;
}

abbrev they_leave_file :
    CallsLeaveFile a_node some_factories some_checks contract_calls (λ proxy w. (ok tt, w))
they_leave_file = record {
  upgrade_file = λ owner proxy_admin proxy impl w k. refl;
  after_file = λ proxy w k. refl;
}

abbrev a_proxy : Option String
a_proxy = some "0xproxy"

abbrev after : World
after =
    (upgrade_or_deploy a_node some_factories some_checks contract_calls "NFTOracle" (some "0xproxy")
      "0xproxyadmin" "0xowner" "0ximpl" "initialize" true (λ proxy w. (ok tt, w)) a_world).1

upgraded :
    (upgrade_or_deploy a_node some_factories some_checks contract_calls "NFTOracle"
      (some "0xproxy")
      "0xproxyadmin"
      "0xowner"
      "0ximpl"
      "initialize"
      true
      (λ proxy w. (ok tt, w))
      a_world).0
    ≡ ok "0xproxy"
unfolding upgrade_or_deploy not_falsy_or_zero_address raw_insert_contract_address_in_db
    insert_contract_address_in_db
upgraded = refl

proxy_is_found_example :
    (value_address a_node "NFTOracle" after ≡ (ok "0xproxy", after))
    × (not_falsy_or_zero_address some_checks (some "0xproxy") ≡ true → a_proxy ≡ some "0xproxy")
proxy_is_found_example =
    proxy_is_found a_node some_factories some_checks contract_calls leave_file
      (λ proxy w. (ok tt, w)) they_leave_file "NFTOracle" (some "0xproxy") "0xproxyadmin" "0xowner"
      "0ximpl" "initialize" true a_world upgraded
