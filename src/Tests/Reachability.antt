-- ===== src/Tests/Reachability.antt =====
-- The theorems on the pools that configuration can reach, from a pool that is new.
use lender.Common.{true, false, ◌≡◌, refl, inr, arith}
use lender.Contracts.Configurator.{set_pool_pause, set_pool_paused_time}
use lender.Contracts.Configurator.Pausing.{CanSet}
use lender.Contracts.Configurator.Reachable.{Reach, here, next, pause, wait}
use lender.Contracts.Configurator.Reachable.Invariant.{Reach-Keeps, can_pause_and_resume}
use lender.Contracts.Configurator.Reachable.Kept.{IsGood, Keeps}
use lender.Contracts.NftConfiguration.{get_ltv, get_liquidation_threshold, get_liquidation_bonus}
use lender.Contracts.Pool.{Pool, set_pause}
use lender.Failure.{atomic, ok}
use lender.Tests.World.{a_pool}

a_pool-IsGood : IsGood a_pool
unfolding get_ltv get_liquidation_threshold get_liquidation_bonus
a_pool-IsGood = record {
  nfts = λ k. record { ltv = omega arith; bonus = inr (refl, refl); size = omega arith };
  reserves = λ k. omega arith;
}

-- Paused at once, and two seconds later.
abbrev paused : Pool
paused = record a_pool { is_paused = true; pause_start_time = 7 }

abbrev two_seconds_later : Pool
two_seconds_later = record paused { block_timestamp = 9 }

reached : Reach a_pool two_seconds_later
unfolding set_pool_pause atomic set_pause
reached = next (next here (pause "0xguard" true refl)) (wait 9 (omega arith) refl)

Reach-Keeps_example : Keeps a_pool two_seconds_later
Reach-Keeps_example = Reach-Keeps a_pool two_seconds_later a_pool-IsGood reached

can_pause_and_resume_example :
    (CanSet false two_seconds_later
      → (after : Pool) × (set_pool_pause "0xguard" false two_seconds_later ≡ (ok tt, after))
        × (after.is_paused ≡ false)
        × Reach a_pool after)
    × ((mid after : Pool) × (set_pool_paused_time "0xguard" 0 0 two_seconds_later ≡ (ok tt, mid))
        × (set_pool_pause "0xguard" false mid ≡ (ok tt, after))
        × (after.is_paused ≡ false)
        × Reach a_pool after)
can_pause_and_resume_example =
    can_pause_and_resume a_pool two_seconds_later false a_pool-IsGood reached
