-- ===== src/Init/Chain.antt =====
-- The chain that runs the configurator: what the calls of ethers do to the pool of
-- contracts/protocol/LendPool.sol, and the reading of the arguments of a script as its inputs.
use lender.Common.{ℕ, String, ◌≡◌, List, All, map, Bool}
use lender.Contracts.Configurator.{
  ConfigNftInput, ConfigReserveInput, batch_config_nft, batch_config_reserve,
  set_borrowing_flag_on_reserve,
}
use lender.Contracts.Pool.{Pool}
use lender.Deploy.{Node, ConfigNftArgs, ConfigReserveArgs}
use lender.Types.Params.{NumericText, plain, negative}

abbrev pub IsPlain : NumericText → Type 0
IsPlain (plain n) = Unit
IsPlain (negative n) = ⊥

abbrev pub number : NumericText → ℕ
number (plain n) = n
number (negative n) = 0

-- The input that the arguments of a call encode, where they are not negative.
abbrev pub to_input : ConfigNftArgs → ConfigNftInput
to_input args = record {
  asset = args.asset;
  base_ltv = number args.base_ltv;
  liquidation_threshold = args.liquidation_threshold;
  liquidation_bonus = args.liquidation_bonus;
  redeem_duration = args.redeem_duration;
  auction_duration = args.auction_duration;
  redeem_fine = args.redeem_fine;
  redeem_threshold = args.redeem_threshold;
  min_bid_fine = args.min_bid_fine;
  max_supply = args.max_supply;
  max_token_id = args.max_token_id;
  max_collateral_cap = args.max_collateral_cap;
}

abbrev pub to_reserve_input : ConfigReserveArgs → ConfigReserveInput
to_reserve_input args = record {
  asset = args.asset;
  reserve_factor = args.reserve_factor;
  max_utilization_rate = args.max_utilization_rate;
}

-- Calls to the configurator, sent by `sender`, run its code on the pool; a call whose arguments
-- cannot be encoded, as a negative number for an unsigned one, is not described.
pub record RunsConfigurator {W : Type 0} (node : Node W) (sender : String) : Type 0 where
  pub configurator : String
  pub pool_of : W → Pool
  pub config_nft :
      (args : List ConfigNftArgs) (w : W)
      → All (λ a. IsPlain a.base_ltv) args
      → ((node.batch_config_nft configurator args w).0
          ≡ (batch_config_nft sender (map to_input args) (pool_of w)).0)
        × (pool_of ((node.batch_config_nft configurator args w).1)
            ≡ (batch_config_nft sender (map to_input args) (pool_of w)).1)
  pub config_reserve :
      (args : List ConfigReserveArgs) (w : W)
      → ((node.batch_config_reserve configurator args w).0
          ≡ (batch_config_reserve sender (map to_reserve_input args) (pool_of w)).0)
        × (pool_of ((node.batch_config_reserve configurator args w).1)
            ≡ (batch_config_reserve sender (map to_reserve_input args) (pool_of w)).1)
  pub borrowing_flag :
      (assets : List String) (flag : Bool) (w : W)
      → ((node.set_borrowing_flag_on_reserve configurator assets flag w).0
          ≡ (set_borrowing_flag_on_reserve sender assets flag (pool_of w)).0)
        × (pool_of ((node.set_borrowing_flag_on_reserve configurator assets flag w).1)
            ≡ (set_borrowing_flag_on_reserve sender assets flag (pool_of w)).1)
