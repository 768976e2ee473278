-- ===== src/Deployments.antt =====
-- helpers/contracts-deployments.ts: every deployment calls a factory that is generated from the
-- contract, and puts the address on file.
pub mod Protocol
pub mod Gateways
pub mod Mocks
pub mod Libraries
pub mod Implementations
pub mod OnFile
mod Plain
pub mod Stage
pub mod Linkable
pub mod Found
pub mod Tokens
use lender.Common.{String, Bool, ℕ, List, []}
use lender.Common.Dict.{Dict}
use lender.Db.{ContractInstance, get_contract_address_in_db}
use lender.Deploy.{Node, with_save_and_verify, raw_insert_contract_address_in_db}
use lender.Failure.{Action, ◌>>=◌, ◌>>◌}
use lender.Types.ContractId.{ContractId, contract_text}

-- An argument of a constructor.
pub data Argument : Type 0 where
  text : String → Argument
  number : ℕ → Argument
  texts : List String → Argument

-- The generated factories: a contract by its name, the libraries by their placeholders, and the
-- arguments of the constructor; and the one call that goes by the compiled artifact instead, with
-- the libraries by their names.
pub record Factories (W : Type 0) : Type 0 where
  pub deploy : String → Dict String → List Argument → Action W ContractInstance
  pub deploy_artifact : String → Dict String → Action W ContractInstance

module _ {W : Type 0} (node : Node W) (factories : Factories W) where
  -- `withSaveAndVerify(await new F(libraries, signer).deploy(args), id, args, verify)`
  unfoldable pub deploy_and_save :
      String → Dict String → List Argument → String → Bool → Action W ContractInstance
  deploy_and_save factory libraries args id verify = do
    instance_ ← factories.deploy factory libraries args
    with_save_and_verify node instance_ id verify

  -- The same for the implementation behind a proxy, whose address is on file under its own name too.
  unfoldable pub deploy_as_implementation :
      String → Dict String → String → String → Bool → Action W ContractInstance
  deploy_as_implementation factory libraries impl id verify = do
    instance_ ← factories.deploy factory libraries []
    raw_insert_contract_address_in_db node impl instance_.address
    with_save_and_verify node instance_ id verify

  -- `getContractAddressInDb`
  unfoldable pub address_in_db : ContractId → Action W String
  address_in_db id w = (get_contract_address_in_db node.lowdb (contract_text id) w, w)
