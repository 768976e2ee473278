-- ===== src/Contracts/Configurator/Reachable.antt =====
-- The configuration of the pool as a state machine, from any sender, in any order, with the passing of
-- time: of the transactions of LendPoolConfigurator.sol, both batches, the borrowing flag, the pause,
-- its times, and the thirteen settings for lists of assets. Not among them are those that initialise
-- reserves and NFTs, upgrade their tokens, or set the limits on their numbers, the interceptors and
-- the lockers.
mod Words
pub mod Kept
mod Set
mod SetWords
mod SetRounds
pub mod Invariant
use lender.Common.{ℕ, String, Bool, ◌≤◌, ◌≡◌, List}
use lender.Contracts.Configurator.{
  ConfigNftInput, ConfigReserveInput, batch_config_nft, batch_config_reserve,
  set_borrowing_flag_on_reserve, set_pool_pause, set_pool_paused_time,
}
use lender.Contracts.Configurator.Settings.{Setting, set_for_assets}
use lender.Contracts.Pool.{Pool}
use lender.Failure.{ok}

-- One transaction that succeeds, or a later block.
pub data Step (before after : Pool) : Type 0 where
  configure_nfts :
      (sender : String) (inputs : List ConfigNftInput)
      → batch_config_nft sender inputs before ≡ (ok tt, after)
      → Step before after
  configure_reserves :
      (sender : String) (inputs : List ConfigReserveInput)
      → batch_config_reserve sender inputs before ≡ (ok tt, after)
      → Step before after
  flag_borrowing :
      (sender : String) (assets : List String) (flag : Bool)
      → set_borrowing_flag_on_reserve sender assets flag before ≡ (ok tt, after)
      → Step before after
  pause :
      (sender : String) (val : Bool)
      → set_pool_pause sender val before ≡ (ok tt, after)
      → Step before after
  time_pause :
      (sender : String) (start_time duration_time : ℕ)
      → set_pool_paused_time sender start_time duration_time before ≡ (ok tt, after)
      → Step before after
  set_all :
      (setting : Setting) (sender : String) (assets : List String)
      → set_for_assets setting sender assets before ≡ (ok tt, after)
      → Step before after
  wait :
      (time : ℕ)
      → before.block_timestamp ≤ time
      → after ≡ record before { block_timestamp = time }
      → Step before after

pub data Reach (start : Pool) : Pool → Type 0 where
  here : Reach start start
  next : {t u : Pool} → Reach start t → Step t u → Reach start u
