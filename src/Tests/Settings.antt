-- ===== src/Tests/Settings.antt =====
-- The theorems on the settings of a market, on the file of contracts and on the pure helpers, applied
-- where their hypotheses hold.
use lender.Common.{
  ℕ, ◌≡◌, refl, String, false, none, some, List, [], ◌∷◌, concat, ◌==◌, eq_iff, arith,
  if◌then◌else◌,
}
use lender.Common.Dict.{Dict, lookup}
use lender.Configuration.{get_genesis_pool_admin, get_emergency_admin}
use lender.Configuration.Laws.{admins_skip_monad}
use lender.Db.{config_param, insert_contract_address_in_db, get_contract_address_with_json_fallback}
use lender.Db.Laws.{fallback-insert_contract_address_in_db}
use lender.Failure.{ok}
use lender.Markets.Bend.{bend_config}
use lender.Networks.{get_param_per_network}
use lender.Networks.Laws.{get_param_per_network_direct, served_by}
use lender.Tests.World.{a_world, a_file, some_checks, on_network}
use lender.Types.Network.{Network, at_network}
use lender.Utils.Chunk.{chunk}
use lender.Utils.Chunk.Laws.{AllFull, chunk_lem}
use lender.Utils.Objects.{filter_map_by}
use lender.Utils.Objects.Laws.{lookup-filter_map_by}

-- The configuration by network.
get_param_per_network_direct_example :
    get_param_per_network (on_network "monad") bend_config.pool_admin "monad"
    ≡ some (at_network bend_config.pool_admin (served_by Network.monad))
get_param_per_network_direct_example =
    get_param_per_network_direct bend_config.pool_admin (on_network "monad") Network.monad refl

admins_skip_monad_example :
    (get_genesis_pool_admin (on_network "monad") ("0xs0" ∷ "0xs1" ∷ []) (record bend_config {
      pool_admin = record bend_config.pool_admin { monad = some "0xa" };
      emergency_admin = record bend_config.emergency_admin { monad = some "0xe" };
    })
      ≡ get_genesis_pool_admin (on_network "monad") ("0xs0" ∷ "0xs1" ∷ []) bend_config)
    × (get_emergency_admin (on_network "monad") ("0xs0" ∷ "0xs1" ∷ []) (record bend_config {
      pool_admin = record bend_config.pool_admin { monad = some "0xa" };
      emergency_admin = record bend_config.emergency_admin { monad = some "0xe" };
    })
        ≡ get_emergency_admin (on_network "monad") ("0xs0" ∷ "0xs1" ∷ []) bend_config)
admins_skip_monad_example =
    admins_skip_monad (on_network "monad") ("0xs0" ∷ "0xs1" ∷ []) bend_config (some "0xa")
      (some "0xe") refl

given : (a : String) → (a == "") ≡ false → ¬ (a ≡ "")
given a h e = ground (arith, eq_iff a "")

unnamed : config_param bend_config "LendPool" ≡ none
unfolding config_param
unnamed = refl

fallback-insert_contract_address_in_db_example :
    get_contract_address_with_json_fallback a_file some_checks
      (on_network "sepolia")
      bend_config
      "LendPool"
      (insert_contract_address_in_db a_file "LendPool" "0xpool" a_world)
    ≡ ok "0xpool"
fallback-insert_contract_address_in_db_example =
    fallback-insert_contract_address_in_db a_file some_checks (on_network "sepolia") bend_config
      "LendPool" "0xpool" a_world unnamed (given "0xpool" refl)

-- The pure helpers.
abbrev some_numbers : List ℕ
some_numbers = 1 ∷ 2 ∷ 3 ∷ []

chunk_lem_example :
    (concat (chunk some_numbers 2) ≡ some_numbers) × AllFull 2 (chunk some_numbers 2)
chunk_lem_example = chunk_lem some_numbers 2 (omega arith)

abbrev an_object : Dict ℕ
an_object = ("a", 1) ∷ ("b", 2) ∷ []

lookup-filter_map_by_example :
    lookup "b" (filter_map_by an_object (λ k. k == "b"))
    ≡ (if "b" == "b" then lookup "b" an_object else none)
lookup-filter_map_by_example = lookup-filter_map_by an_object (λ k. k == "b") "b"
