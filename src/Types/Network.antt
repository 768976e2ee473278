-- ===== src/Types/Network.antt =====
-- helpers/types.ts: the networks, and a value for each of them.
use lender.Common.{String, Option, none, some, if◌then◌else◌, ◌==◌}

-- `eEthereumNetwork`
pub data Network : Type 0 where
  coverage hardhat localhost goerli rinkeby sepolia main monad : Network

-- The text of each member of the enum.
abbrev pub network_text : Network → String
network_text coverage = "coverage"
network_text hardhat = "hardhat"
network_text localhost = "localhost"
network_text goerli = "goerli"
network_text rinkeby = "rinkeby"
network_text sepolia = "sepolia"
network_text main = "main"
network_text monad = "monad"

-- `iEthereumParamsPerNetwork<T>`
pub record ParamsPerNetwork {ℓ} (T : Type ℓ) : Type ℓ where
  pub coverage : T
  pub hardhat : T
  pub localhost : T
  pub goerli : T
  pub rinkeby : T
  pub sepolia : T
  pub main : T
  pub monad : T

-- `param[network]`: the property that the network names.
abbrev pub at_network {ℓ} : {T : Type ℓ} → ParamsPerNetwork T → Network → T
at_network p Network.coverage = p.coverage
at_network p Network.hardhat = p.hardhat
at_network p Network.localhost = p.localhost
at_network p Network.goerli = p.goerli
at_network p Network.rinkeby = p.rinkeby
at_network p Network.sepolia = p.sepolia
at_network p Network.main = p.main
at_network p Network.monad = p.monad

-- The member of the enum that a network's name is, if any.
abbrev pub network_of_text : String → Option Network
network_of_text s =
    if s == "coverage"
    then some Network.coverage
    else if s == "hardhat"
    then some Network.hardhat
    else if s == "localhost"
    then some Network.localhost
    else if s == "goerli"
    then some Network.goerli
    else if s == "rinkeby"
    then some Network.rinkeby
    else if s == "sepolia"
    then some Network.sepolia
    else if s == "main"
    then some Network.main
    else if s == "monad"
    then some Network.monad
    else none
