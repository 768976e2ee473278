-- ===== src/Init/Reserves/Listed.antt =====
-- Which reserves of a market are sent to the chain for initialisation, and under which names.
use mathlib.Core.List.{append_assoc, append-nil, map-append}
use lender.Common.{
  ℕ, String, ◌≡◌, sym, ap, ◌∙◌, Bool, Bool-cases, inl, inr, List, [], ◌∷◌, ◌++◌, map, if◌then◌else◌,
}
use lender.Common.Dict.{Dict, lookup}
use lender.Db.{text_or}
use lender.Deploy.{Node, InitReserveInput}
use lender.Failure.{Action, ok, ◌>>=◌}
use lender.Failure.Laws.{bind-passed}
use lender.Init.Reserves.{
  TokenNaming, init_reserve_inputs, strategy_address, implementation_address, init_param,
}
use lender.Networks.{Environment}
use lender.Types.ContractId.{debt_token}
use lender.Types.Params.{ReserveParams}
use lender.Utils.Address.{AddressChecks, truthy}

-- The entries of the market's parameters whose symbol has an address.
pub listed : Dict ReserveParams → Dict String → Dict ReserveParams
listed [] addresses = []
listed ((symbol, params) ∷ reserves) addresses =
    if truthy (lookup symbol addresses)
    then (symbol, params) ∷ listed reserves addresses
    else listed reserves addresses

-- What does not depend on the deployments in the argument of an initialisation: the asset, its
-- decimals, its name, and the collector.
abbrev pub Summary : Type 0
Summary = String × ℕ × String × String

abbrev pub summary : InitReserveInput → Summary
summary input = (
  input.underlying_asset, input.underlying_asset_decimals, input.underlying_asset_name,
  input.treasury,
)

abbrev pub expected : TokenNaming → Dict String → String × ReserveParams → Summary
expected naming addresses (symbol, params) = (
  text_or (lookup symbol addresses) "",
  params.reserve_decimals,
  symbol,
  naming.collector_address,
)

module _ {W : Type 0} (checks : AddressChecks) (env : Environment) (node : Node W) where
  from_here :
      (provider : String) (naming : TokenNaming) (pool_name : String) (verify : Bool)
      (addresses : Dict String) (reserves : Dict ReserveParams) (strategies : Dict String)
      (before inputs : List InitReserveInput) (w : W)
      → (init_reserve_inputs checks env node provider naming pool_name verify addresses reserves
          strategies before w).0
        ≡ ok inputs
      → map summary inputs
        ≡ map summary before ++ map (expected naming addresses) (listed reserves addresses)
  unfolding init_reserve_inputs listed
  from_here provider naming pool_name verify addresses [] strategies before inputs w h =
      let e : before ≡ inputs = cc in rw append-nil (ap (map summary) (sym e))
  from_here provider naming pool_name verify addresses ((symbol, params) ∷ reserves) strategies
        before inputs w h =
      elim (Bool-cases (truthy (lookup symbol addresses))) [
        | inr unlisted ↦ rw unlisted (
            from_here provider naming pool_name verify addresses reserves strategies before inputs w
              (rw (unlisted, init_reserve_inputs) at h))
        | inl there ↦
            let run = rw (there, init_reserve_inputs) at h in
            let (found, e1, r1) =
              bind-passed
                (strategy_address checks env node provider params.strategy verify strategies)
                (after_strategy) w run in
            let (b_token, e2, r2) =
              bind-passed (implementation_address checks env node pool_name params.b_token_impl)
                (after_b_token found) _ r1 in
            let (debt, e3, r3) =
              bind-passed (implementation_address checks env node pool_name debt_token)
                (last found b_token) _ r2 in
            let later =
              from_here provider naming pool_name verify addresses reserves (found.1) _ inputs _
                r3 in
            rw there (
              later
              ∙ ap (λ l. l ++ map (expected naming addresses) (listed reserves addresses))
                  (map-append summary before _)
              ∙ append_assoc (map summary before) _
                  (map (expected naming addresses) (listed reserves addresses)))
      ]
    where
      last : String × Dict String → String → String → Action W (List InitReserveInput)
      last found b_token debt =
          init_reserve_inputs checks env node provider naming pool_name verify addresses reserves
            (found.1)
            (before
              ++ init_param checks env node naming symbol (text_or (lookup symbol addresses) "")
                  (found.0) params b_token debt
                ∷ [])

      after_b_token : String × Dict String → String → Action W (List InitReserveInput)
      after_b_token found b_token =
          implementation_address checks env node pool_name debt_token >>= last found b_token

      after_strategy : String × Dict String → Action W (List InitReserveInput)
      after_strategy found =
          implementation_address checks env node pool_name params.b_token_impl
          >>= after_b_token found

  -- Where the loop over the reserves to initialise succeeds, its arguments are those of the
  -- market's reserves that have an address, in order: each has that address as its asset, the
  -- decimals of its parameters, its symbol as its name, and the collector as its treasury.
  pub init_reserve_inputs-listed :
      (provider : String) (naming : TokenNaming) (pool_name : String) (verify : Bool)
      (addresses : Dict String) (reserves : Dict ReserveParams) (inputs : List InitReserveInput)
      (w : W)
      → (init_reserve_inputs checks env node provider naming pool_name verify addresses reserves []
          [] w).0
        ≡ ok inputs
      → map summary inputs ≡ map (expected naming addresses) (listed reserves addresses)
  init_reserve_inputs-listed provider naming pool_name verify addresses reserves inputs w h =
      from_here provider naming pool_name verify addresses reserves [] [] inputs w h
