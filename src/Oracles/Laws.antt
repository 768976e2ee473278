-- ===== src/Oracles/Laws.antt =====
-- What the setting of prices does with an asset that has no price.
use lender.Common.{
  ℕ, String, Bool, true, false, none, some, ◌≡◌, refl, List, [], ◌∷◌, inl, inr, if◌then◌else◌,
}
use lender.Common.Dict.{Dict, lookup}
use lender.Deploy.{each}
use lender.Failure.{Result, Action, ok, err, pure, fail, undefined_value, ◌>>◌}
use lender.Oracles.{OracleCalls, set_price, set_prices_in_nft_oracle}
use lender.Utils.Entries.{find_index-cases}

-- The addresses and the prices of the assets before the first that has no price.
unfoldable pub first_priced : Dict ℕ → Dict String → List (String × ℕ)
first_priced prices [] = []
first_priced prices ((symbol, address) ∷ assets) = elim (lookup symbol prices) [
  | none ↦ []
  | some price ↦ (address, price) ∷ first_priced prices assets
]

unfoldable pub all_priced : Dict ℕ → Dict String → Bool
all_priced prices [] = true
all_priced prices ((symbol, address) ∷ assets) = elim (lookup symbol prices) [
  | none ↦ false
  | some _ ↦ all_priced prices assets
]

-- What follows a first action, by the result of that action.
abbrev go_on : {S : Type 0} → Action S (Unit {0}) → Result (Unit {0}) × S → Result (Unit {0}) × S
go_on k r = elim (r.0) [ ok _ ↦ k (r.1) | err failure ↦ (err failure, r.1) ]

go_on_trans :
    {S : Type 0} (whole first second : Action S (Unit {0}))
    → ((s : S) → whole s ≡ (first >> second) s)
    → (r : Result (Unit {0}) × S) → go_on whole r ≡ go_on second (go_on first r)
go_on_trans whole first second h (ok a, s) = h s
go_on_trans whole first second h (err failure, s) = refl

module _ {W : Type 0} (calls : OracleCalls W) where
  abbrev send : String × ℕ → Action W (Unit {0})
  send entry = calls.set_asset_data (entry.0) (entry.1)

  abbrev finish : Bool → Action W (Unit {0})
  finish all = if all then pure tt else fail undefined_value

  -- The setting of the prices of NFTs sends the prices of the assets before the first that has
  -- none, in order, until a transaction fails; and after these it ends where all assets have a
  -- price, and fails where one has none, so that no asset after that one is reached.
  pub set_prices_in_nft_oracle_lem :
      (prices : Dict ℕ) (assets : Dict String) (w : W)
      → set_prices_in_nft_oracle calls prices assets w
        ≡ (each (λ entry. calls.set_asset_data (entry.0) (entry.1)) (first_priced prices assets)
              >> (if all_priced prices assets then pure tt else fail undefined_value))
            w
  unfolding set_prices_in_nft_oracle first_priced all_priced
  set_prices_in_nft_oracle_lem prices [] w = refl
  set_prices_in_nft_oracle_lem prices ((symbol, address) ∷ assets) w =
      elim (find_index-cases symbol prices) [
        | inl (index, missing) ↦ rw (set_price, first_priced, all_priced, index, missing) refl
        | inr (n, _, price, (index, found, value)) ↦
            rw (set_price, first_priced, all_priced, index, found, value)
              (go_on_trans (set_prices_in_nft_oracle calls prices assets)
                (each send (first_priced prices assets)) (finish (all_priced prices assets))
                (set_prices_in_nft_oracle_lem prices assets) (calls.set_asset_data address price w))
      ]
