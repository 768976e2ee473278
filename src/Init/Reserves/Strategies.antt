-- ===== src/Init/Reserves/Strategies.antt =====
-- Each rate strategy is deployed once in a run.
use lender.Common.{
  String, ◌≡◌, refl, sym, ap, ◌∙◌, Bool, true, Bool-cases, inl, inr, some, Option, none, arith,
}
use lender.Common.Dict.{Dict, lookup, insert, lookup-insert}
use lender.Db.{text_or}
use lender.Deploy.{Node, deploy_rate_strategy, raw_insert_contract_address_in_db}
use lender.Failure.{ok, pure, ◌>>◌}
use lender.Failure.Laws.{bind-passed}
use lender.Init.Reserves.{strategy_address, rate_args}
use lender.Networks.{Environment}
use lender.Types.Params.{InterestRateStrategyParams}
use lender.Utils.Address.{AddressChecks, truthy}
use lender.Contracts.Configurator.Acceptance.{equals_itself}

truthy_found : (o : Option String) → truthy o ≡ true → o ≡ some (text_or o "")
truthy_found none h = ground arith
truthy_found (some s) h = refl

module _ {W : Type 0} (checks : AddressChecks) (env : Environment) (node : Node W) where
  -- The strategies of the run know the address that was given.
  known :
      (provider : String) (strategy : InterestRateStrategyParams) (verify : Bool)
      (before after : Dict String) (address : String) (w w' : W)
      → strategy_address checks env node provider strategy verify before w
        ≡ (ok (address, after), w')
      → truthy (some address) ≡ true
      → lookup strategy.name after ≡ some address
  unfolding strategy_address raw_insert_contract_address_in_db
  known provider strategy verify before after address w w' h given =
      elim (Bool-cases (truthy (lookup strategy.name before))) [
        | inl there ↦
            let done = rw (there, strategy_address) at h in
            let kept : before ≡ after = cc in
            let found : text_or (lookup strategy.name before) "" ≡ address = cc in
            rw (sym kept) (truthy_found (lookup strategy.name before) there ∙ ap some found)
        | inr fresh ↦
            let done = rw (fresh, strategy_address) at h in
            let (a, deployed, stored) =
              bind-passed
                (deploy_rate_strategy node strategy.name (rate_args provider strategy) verify)
                (λ a.
                  raw_insert_contract_address_in_db node strategy.name a
                  >> pure (a, insert strategy.name a before))
                w (ap (λ r. r.0) done) in
            let same : a ≡ address = cc in
            let grown : insert strategy.name a before ≡ after = cc in
            rw
              (
                sym grown,
                lookup-insert strategy.name strategy.name a before,
                equals_itself strategy.name,
              )
              (ap some same)
      ]

  -- Where the address of a rate strategy was obtained and is not empty, asking again in the same
  -- run for a strategy of that name gives the same address and changes nothing.
  pub strategy_address_once :
      (provider : String) (strategy again : InterestRateStrategyParams) (verify : Bool)
      (before after : Dict String) (address : String) (w w' : W)
      → strategy_address checks env node provider strategy verify before w
        ≡ (ok (address, after), w')
      → truthy (some address) ≡ true
      → again.name ≡ strategy.name
      → strategy_address checks env node provider again verify after w' ≡ (ok (address, after), w')
  unfolding strategy_address
  strategy_address_once provider strategy again verify before after address w w' h given name =
      let found = known provider strategy verify before after address w w' h given in
      rw (name, found, given, strategy_address) refl
