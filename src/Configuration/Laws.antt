-- ===== src/Configuration/Laws.antt =====
-- Which address a market gives, and when a stand-in is deployed.
use lender.Common.{String, ◌≡◌, refl, Option, List}
use lender.Configuration.{get_genesis_pool_admin, get_emergency_admin}
use lender.Networks.{Environment, get_param_per_network}
use lender.Types.Network.{ParamsPerNetwork}
use lender.Types.Params.{CommonConfiguration}

-- Where FORK is not set, the entry for monad of a parameter is never read, on whatever network.
get_param_per_network_skips_monad {ℓ} :
    {T : Type ℓ} (env : Environment) (param : ParamsPerNetwork T) (value : T) (network : String)
    → env.fork ≡ ""
    → get_param_per_network env (record param { monad = value }) network
      ≡ get_param_per_network env param network
unfolding get_param_per_network
get_param_per_network_skips_monad env param value network unset = rw unset refl

-- Where FORK is not set, the administrators of the pool do not depend on the addresses that the
-- market configuration gives for monad.
pub admins_skip_monad :
    (env : Environment) (signers : List String) (config : CommonConfiguration)
    (admin emergency : Option String)
    → env.fork ≡ ""
    → let config' = record config {
      pool_admin = record config.pool_admin { monad = admin };
      emergency_admin = record config.emergency_admin { monad = emergency };
    } in
      (get_genesis_pool_admin env signers config' ≡ get_genesis_pool_admin env signers config)
      × (get_emergency_admin env signers config' ≡ get_emergency_admin env signers config)
unfolding get_genesis_pool_admin get_emergency_admin
admins_skip_monad env signers config admin emergency unset = (
  rw (get_param_per_network_skips_monad env config.pool_admin admin _ unset) refl,
  rw (get_param_per_network_skips_monad env config.emergency_admin emergency _ unset) refl,
)
