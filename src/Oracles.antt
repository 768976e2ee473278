-- ===== src/Oracles.antt =====
-- helpers/oracles-helpers.ts: the assets, prices and aggregators that are given to the oracles.
pub mod Laws
use Prim.Native.String
use lender.Common.{ℕ, String, Bool, Option, none, some, List, if◌then◌else◌}
use lender.Common.Dict.{Dict, keys}
use lender.Deploy.{each}
use lender.Failure.{Action, pure, fail, thrown, undefined_value, ◌>>◌}
use lender.Utils.Entries.{find_index, is_negative, is_undefined, entry_at}

-- The transactions of the oracles at hand, which are mined when the call is over.
pub record OracleCalls (W : Type 0) : Type 0 where
  pub add_aggregator : String → String → Action W (Unit {0})
  pub add_asset : String → Action W (Unit {0})
  pub set_asset_data : String → ℕ → Action W (Unit {0})
  pub mock_add_answer : ℕ → Action W (Unit {0})

-- Whether `zeroPad(arrayify(address), 32)` of the ethers package gives 32 bytes rather than an error.
pub record Padding : Type 0 where
  pub fits : String → Bool

module _ {W : Type 0} (calls : OracleCalls W) where
  -- A round of `setPricesInChainlinkMockAggregator`; taking an entry apart that is undefined is an
  -- error.
  abbrev pub add_answer : Dict String → String × ℕ → Action W (Unit {0})
  add_answer assets_addresses (asset_symbol, price) =
      let asset_address_index = find_index asset_symbol (keys assets_addresses) in
      elim (entry_at asset_address_index assets_addresses) [
        | none ↦ fail undefined_value
        | some (_, asset_address) ↦ calls.mock_add_answer price
      ]

  -- `setPricesInChainlinkMockAggregator`
  unfoldable pub set_prices_in_chainlink_mock_aggregator :
      Dict ℕ → Dict String → Action W (Unit {0})
  set_prices_in_chainlink_mock_aggregator prices assets_addresses =
      each (add_answer assets_addresses) prices

  -- A round of `setAggregatorsInReserveOracle`
  abbrev pub set_aggregator : Padding → Dict String → String × String → Action W (Unit {0})
  set_aggregator padding aggregators_addresses (asset_symbol, asset_address) =
      let agg_address_index = find_index asset_symbol (keys aggregators_addresses) in
      if is_negative agg_address_index
      then fail (thrown (String.◌++◌ "can not find aggregator for " asset_symbol))
      else elim (entry_at agg_address_index aggregators_addresses) [
        | none ↦ fail undefined_value
        | some (_, agg_address) ↦
            if padding.fits asset_address
            then calls.add_aggregator asset_address agg_address
            else fail (thrown "invalid arrayify value")
      ]

  -- `setAggregatorsInReserveOracle`
  unfoldable pub set_aggregators_in_reserve_oracle :
      Padding → Dict String → Dict String → Action W (Unit {0})
  set_aggregators_in_reserve_oracle padding all_assets_addresses aggregators_addresses =
      each (set_aggregator padding aggregators_addresses) all_assets_addresses

  -- `addAssetsInNFTOracle`
  unfoldable pub add_assets_in_nft_oracle : Dict String → Action W (Unit {0})
  add_assets_in_nft_oracle assets_addresses =
      each (λ entry. calls.add_asset (entry.1)) assets_addresses

  -- A round of `setPricesInNFTOracle`
  abbrev pub set_price : Dict ℕ → String × String → Action W (Unit {0})
  set_price prices (asset_symbol, asset_address) =
      let price_index = find_index asset_symbol (keys prices) in
      if is_undefined price_index then pure tt else elim (entry_at price_index prices) [
        | none ↦ fail undefined_value
        | some (_, price) ↦ calls.set_asset_data asset_address price
      ]

  -- `setPricesInNFTOracle`
  unfoldable pub set_prices_in_nft_oracle : Dict ℕ → Dict String → Action W (Unit {0})
  set_prices_in_nft_oracle prices assets_addresses = each (set_price prices) assets_addresses
