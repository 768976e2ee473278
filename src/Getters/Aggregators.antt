-- ===== src/Getters/Aggregators.antt =====
-- helpers/contracts-getters.ts: `getPairsTokenAggregator`, the assets beside their price aggregators.
pub mod Laws
use Prim.Native.String
use lender.Common.{String, List, [], ◌∷◌, none, some, if◌then◌else◌, map}
use lender.Common.Dict.{Dict, keys}
use lender.Failure.{Failure, Result, ok, err, thrown, undefined_value}
use lender.Utils.Entries.{find_index, is_negative, entry_at}
use lender.Utils.Objects.{omit}

-- `getQuoteCurrencies`, whose cases all give one list
unfoldable pub get_quote_currencies : String → List String
get_quote_currencies oracle_quote_currency = "ETH" ∷ "WETH" ∷ []

abbrev pub no_aggregator : String → Failure
no_aggregator token_symbol = thrown (String.◌++◌ "can not find aggregator for " token_symbol)

-- The function that is mapped over the entries.
unfoldable pub pair_of : Dict String → String × String → Result (String × String)
pair_of aggregators_addresses (token_symbol, token_address) =
    let aggregator_address_index = find_index token_symbol (keys aggregators_addresses) in
    if is_negative aggregator_address_index
    then err (no_aggregator token_symbol)
    else elim (entry_at aggregator_address_index aggregators_addresses) [
      | none ↦ err undefined_value
      | some (_, aggregator_address) ↦ ok (token_address, aggregator_address)
    ]

-- The map; the first error ends it.
unfoldable pub pairs_of : Dict String → Dict String → Result (List (String × String))
pairs_of aggregators_addresses [] = ok []
pairs_of aggregators_addresses (entry ∷ entries) = elim (pair_of aggregators_addresses entry) [
  | err e ↦ err e
  | ok pair ↦ elim (pairs_of aggregators_addresses entries) [
    | ok pairs ↦ ok (pair ∷ pairs)
    | err e ↦ err e
  ]
]

-- `getPairsTokenAggregator`
unfoldable pub get_pairs_token_aggregator :
    Dict String → Dict String → String → Result (List String × List String)
get_pairs_token_aggregator all_assets_addresses aggregators_addresses oracle_quote_currency =
    elim (pairs_of aggregators_addresses
      (omit all_assets_addresses (get_quote_currencies oracle_quote_currency))) [
        | ok pairs ↦ ok (map (λ p. p.0) pairs, map (λ p. p.1) pairs)
        | err e ↦ err e
      ]
