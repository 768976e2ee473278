-- ===== src/Networks.antt =====
-- helpers/contracts-helpers.ts: the selection of a parameter by network and by pool.
pub mod Laws
use lender.Common.{String, Option, none, some, if◌then◌else◌, ◌==◌}
use lender.Constants.{zero_address}
use lender.Types.Network.{Network, ParamsPerNetwork, at_network, network_of_text}
use lender.Types.Params.{AddressPerNetwork}
use mathlib.Core.Option

-- `process.env` and the network that hardhat runs on; an unset variable is the empty text.
pub record Environment : Type 0 where
  pub fork : String
  pub mainnet_fork : String
  pub network_name : String

-- The `switch` of `getParamPerNetwork`, with its default.
unfoldable pub by_network_name {ℓ} : {T : Type ℓ} → ParamsPerNetwork T → String → T
by_network_name param network =
    if network == "coverage"
    then param.coverage
    else if network == "hardhat"
    then param.hardhat
    else if network == "localhost"
    then param.localhost
    else if network == "sepolia"
    then param.sepolia
    else if network == "goerli"
    then param.goerli
    else if network == "rinkeby"
    then param.rinkeby
    else if network == "main"
    then param.main
    else param.hardhat

-- `getParamPerNetwork`; none where `FORK` names no property, so that the result is undefined.
unfoldable pub get_param_per_network {ℓ} :
    {T : Type ℓ} → Environment → ParamsPerNetwork T → String → Option T
unfolding by_network_name
get_param_per_network env param network =
    if env.fork == ""
    then some (by_network_name param network)
    else Option.map (at_network param) (network_of_text env.fork)

-- An undefined parameter and an undefined value in it are the same to the callers.
abbrev pub flat {ℓ} : {T : Type ℓ} → Option (Option T) → Option T
flat none = none
flat (some o) = o

-- `getOptionalParamAddressPerNetwork`
unfoldable pub get_optional_param_address_per_network :
    Environment → Option AddressPerNetwork → String → Option String
unfolding get_param_per_network
get_optional_param_address_per_network env none network = some zero_address
get_optional_param_address_per_network env (some param) network =
    flat (get_param_per_network env param network)

-- `iParamsPerPool<T>`
pub record ParamsPerPool {ℓ} (T : Type ℓ) : Type ℓ where
  pub proto : T

-- `getParamPerPool`: both branches of its `switch` give the one pool.
unfoldable pub get_param_per_pool {ℓ} : {T : Type ℓ} → ParamsPerPool T → String → T
get_param_per_pool params pool = if pool == "proto" then params.proto else params.proto
