-- ===== src/Deployments/Implementations.antt =====
-- helpers/contracts-deployments.ts: the implementations of the tokens that the market's parameters
-- name, where the market gives no address for them.
use Prim.Native.String
use lender.Common.{String, Bool, not, List, [], ◌∷◌, if◌then◌else◌, none, ◌==◌, map}
use lender.Common.Dict.{Dict}
use lender.Configuration.{load_pool_config}
use lender.Db.{ContractInstance, config_param}
use lender.Deploy.{Node, each}
use lender.Deployments.{Factories}
use lender.Deployments.Protocol.{
  deploy_generic_b_token_impl, deploy_generic_bnft_impl, deploy_generic_debt_token,
}
use lender.Failure.{thrown, Result, ok, err, Action, pure, ◌>>=◌, ◌>>◌}
use lender.Networks.{Environment, get_optional_param_address_per_network}
use lender.Types.ContractId.{ContractId, contract_text}
use lender.Types.Params.{CommonConfiguration, ReserveParams, NftParams}
use lender.Utils.Address.{AddressChecks, not_falsy_or_zero_address}

-- `acc.add(id)` on a `Set`, whose members stay in the order of insertion
unfoldable pub add_member : List ContractId → ContractId → List ContractId
add_member [] id = id ∷ []
add_member (x ∷ xs) id =
    if contract_text x == contract_text id then x ∷ xs else x ∷ add_member xs id

-- The `reduce` with which both functions below collect the implementations.
unfoldable pub distinct_from : List ContractId → List ContractId → List ContractId
distinct_from acc [] = acc
distinct_from acc (id ∷ ids) = distinct_from (add_member acc id) ids

-- A result in the run of a script.
abbrev pub returned {ℓ} : {A : Type ℓ} {W : Type 0} → Result A → Action W A
returned r w = (r, w)

module _ {W : Type 0} (node : Node W) (factories : Factories W) (checks : AddressChecks)
    (env : Environment) where
  abbrev pub DeployMethod : Type 0
  DeployMethod = Bool → Action W ContractInstance

  -- `chooseBTokenDeployment`
  unfoldable pub choose_b_token_deployment : ContractId → Result DeployMethod
  choose_b_token_deployment id =
      if contract_text id == "BToken"
      then ok (deploy_generic_b_token_impl node factories)
      else err (
          thrown (
            String.◌++◌ "Missing bToken implementation deployment script for: " (contract_text id)))

  -- `chooseBNFTDeployment`
  unfoldable pub choose_bnft_deployment : ContractId → Result DeployMethod
  choose_bnft_deployment id =
      if contract_text id == "BNFT"
      then ok (deploy_generic_bnft_impl node factories)
      else err (
          thrown
            (String.◌++◌ "Missing bNFT implementation deployment script for: " (contract_text id)))

  -- One turn of the loops below: a missing implementation is deployed.
  unfoldable pub deploy_if_missing :
      (ContractId → Result DeployMethod)
      → CommonConfiguration
      → Bool
      → ContractId
      → Action W (Unit {0})
  deploy_if_missing choose pool_config verify id =
      let address =
        get_optional_param_address_per_network env (config_param pool_config (contract_text id))
          env.network_name in
      if not (not_falsy_or_zero_address checks address)
      then (do method ← returned (choose id); _ ← method verify; pure tt)
      else pure tt

  -- `deployBTokenImplementations`; no market has an address for the debt token's implementation.
  unfoldable pub deploy_b_token_implementations :
      String → Dict ReserveParams → Bool → Action W (Unit {0})
  deploy_b_token_implementations pool reserves_config verify = do
    pool_config ← returned (load_pool_config pool)
    each (deploy_if_missing choose_b_token_deployment pool_config verify)
        (distinct_from [] (map (λ e. e.1.b_token_impl) reserves_config))
    (if not (
          not_falsy_or_zero_address checks
            (get_optional_param_address_per_network env none env.network_name))
        then (do _ ← deploy_generic_debt_token node factories verify; pure tt)
        else pure tt)

  -- `deployBNFTImplementations`
  unfoldable pub deploy_bnft_implementations : String → Dict NftParams → Bool → Action W (Unit {0})
  deploy_bnft_implementations pool nfts_config verify = do
    pool_config ← returned (load_pool_config pool)
    each (deploy_if_missing choose_bnft_deployment pool_config verify)
        (distinct_from [] (map (λ e. e.1.b_nft_impl) nfts_config))
