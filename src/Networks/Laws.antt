-- ===== src/Networks/Laws.antt =====
-- Which network's value the selection gives.
use lender.Common.{◌≡◌, refl, some}
use lender.Types.Network.{Network, ParamsPerNetwork, at_network, network_text}
use lender.Networks.{Environment, by_network_name, get_param_per_network}

-- The network whose value the `switch` gives: it has no case for monad.
abbrev pub served_by : Network → Network
served_by Network.monad = Network.hardhat
served_by n = n

module _ {ℓ} {T : Type ℓ} (param : ParamsPerNetwork T) where
  by_network_name-network_text :
      (n : Network) → by_network_name param (network_text n) ≡ at_network param (served_by n)
  unfolding by_network_name
  by_network_name-network_text Network.coverage = refl
  by_network_name-network_text Network.hardhat = refl
  by_network_name-network_text Network.localhost = refl
  by_network_name-network_text Network.goerli = refl
  by_network_name-network_text Network.rinkeby = refl
  by_network_name-network_text Network.sepolia = refl
  by_network_name-network_text Network.main = refl
  by_network_name-network_text Network.monad = refl

  -- Where FORK is not set, the selection for a network gives that network's value, but for monad,
  -- which is given the value for hardhat.
  pub get_param_per_network_direct :
      (env : Environment) (n : Network)
      → env.fork ≡ ""
      → get_param_per_network env param (network_text n) ≡ some (at_network param (served_by n))
  unfolding get_param_per_network
  get_param_per_network_direct env n unset = rw (unset, by_network_name-network_text n)
