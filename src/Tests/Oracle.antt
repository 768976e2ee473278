-- ===== src/Tests/Oracle.antt =====
-- The theorems on the oracles, applied where their hypotheses hold.
use lender.Common.{ℕ, ◌≡◌, refl, String, [], ◌∷◌, if◌then◌else◌}
use lender.Common.Dict.{Dict}
use lender.Deploy.{each}
use lender.Failure.{ok, pure, fail, undefined_value, ◌>>◌}
use lender.Oracles.{OracleCalls, set_prices_in_nft_oracle}
use lender.Oracles.Laws.{first_priced, all_priced, set_prices_in_nft_oracle_lem}
use lender.Tests.World.{World, a_world}

abbrev oracle_calls : OracleCalls World
oracle_calls = record {
  add_aggregator = λ asset agg w. (ok tt, w);
  add_asset = λ asset w. (ok tt, w);
  set_asset_data = λ asset price w. (ok tt, w);
  mock_add_answer = λ price w. (ok tt, w);
}

abbrev listed_assets : Dict String
listed_assets = ("BAYC", "0xbayc") ∷ ("CHOG", "0xchog") ∷ ("AZUKI", "0xazuki") ∷ []

abbrev some_prices : Dict ℕ
some_prices = ("AZUKI", 6) ∷ ("BAYC", 5) ∷ []

-- The first asset has the price that stands second, and the next has none.
first_priced_run : first_priced some_prices listed_assets ≡ ("0xbayc", 5) ∷ []
unfolding first_priced
first_priced_run = refl

set_prices_in_nft_oracle_lem_example :
    set_prices_in_nft_oracle oracle_calls some_prices listed_assets a_world
    ≡ (each
            (λ entry. oracle_calls.set_asset_data (entry.0) (entry.1))
            (first_priced some_prices listed_assets)
          >> (if all_priced some_prices listed_assets then pure tt else fail undefined_value))
        a_world
set_prices_in_nft_oracle_lem_example =
    set_prices_in_nft_oracle_lem oracle_calls some_prices listed_assets a_world
