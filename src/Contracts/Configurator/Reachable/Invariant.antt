-- ===== src/Contracts/Configurator/Reachable/Invariant.antt =====
-- What holds in every pool that configuration can reach, and what can always be done next.
use mathlib.Core.Path.{subst}
use lender.Common.{ℕ, String, Bool, true, false, ◌≡◌, refl, sym, ap, ◌∙◌, inl, inr, ◌⊎◌, arith}
use lender.Contracts.Configurator.{
  batch_config_nft, batch_config_reserve, set_borrowing_flag_on_reserve, set_borrowing_flags,
  set_pool_pause, set_pool_paused_time, only_risk_or_pool_admin, only_emergency_admin, require,
}
use lender.Contracts.Configurator.Batch.{batch_config_nft_accepts, batch_config_nft-ok}
use lender.Contracts.Configurator.Reachable.{
  Step, Reach, configure_nfts, configure_reserves, flag_borrowing, pause, time_pause, set_all, wait,
  here, next,
}
use lender.Contracts.Configurator.Reachable.Words.{
  configured_reserves-ReservesSmall, set_borrowing_flags-ReservesSmall,
}
use lender.Contracts.Configurator.Reserves.{
  batch_config_reserve_accepts, batch_config_reserve-ok, configured_reserves,
}
use lender.Contracts.Pool.{Pool, set_pause, set_paused_time}
use lender.Failure.{Failure, reverted, ok, err, Action, ◌>>◌, atomic}
use lender.Types.ProtocolError.{ProtocolError}
use lender.Failure.Laws.{err≢ok, bind-ok, bind-err, atomic-ok, atomic-err, atomic-passed}
use lender.Contracts.Configurator.Reachable.Kept.{
  IsGood, Keeps, reserves_only, configured_reserves-ReservesOnly, set_borrowing_flags-ReservesOnly,
  configured_all-Keeps, set_pause-Keeps, set_paused_time-Keeps,
}
use lender.Contracts.Configurator.Pausing.{
  CanSet, set_pause-ok, set_pause-is_paused, emergency_admin_asked, set_pool_pause-runs,
}
use lender.Contracts.Configurator.Reachable.SetRounds.{settings-Preserves}
use lender.Contracts.Configurator.Settings
use lender.Contracts.Configurator.Settings.{
  Setting, allowed, setting_round, for_each, set_for_assets,
}

-- What a check does: it passes or fails, and leaves the pool.
abbrev Asks : Action Pool (Unit {0}) → Pool → Type 0
Asks asked pool = (asked pool ≡ (ok tt, pool)) ⊎ ((e : Failure) × (asked pool ≡ (err e, pool)))

-- A transaction that succeeds has passed its check, and did what follows it.
asked-runs :
    (asked f : Action Pool (Unit {0})) (pool after : Pool)
    → Asks asked pool
    → atomic (asked >> f) pool ≡ (ok tt, after)
    → f pool ≡ (ok tt, after)
asked-runs asked f pool after (inl passed) h =
    let same = bind-ok asked (λ _. f) passed in
    let done : f pool ≡ (ok tt, (f pool).1) =
      ap (λ r. (r, (f pool).1))
        (ap (λ r. r.0) (sym same) ∙ atomic-passed (asked >> f) pool (ap (λ r. r.0) h)) in
    sym (sym h ∙ atomic-ok (asked >> f) (same ∙ done) ∙ sym done)
asked-runs asked f pool after (inr (e, refused)) h =
    absurd
      (err≢ok (ap (λ r. r.0) (sym (atomic-err (asked >> f) (bind-err asked (λ _. f) refused)) ∙ h)))

require-cases :
    (condition : Bool) (error : ProtocolError) (pool : Pool)
    → (require condition error pool ≡ (ok tt, pool))
      ⊎ ((e : Failure) × (require condition error pool ≡ (err e, pool)))
require-cases true error pool = inl refl
require-cases false error pool = inr (reverted error, refl)

allowed-Asks :
    (setting : Setting) (sender : String) (pool : Pool) → Asks (allowed setting sender) pool
allowed-Asks (Settings.freeze_flag_on_reserve flag) sender pool = require-cases _ _ pool
allowed-Asks (Settings.reserve_max_utilization_rate rate) sender pool = require-cases _ _ pool
allowed-Asks (Settings.freeze_flag_on_nft flag) sender pool = require-cases _ _ pool
allowed-Asks (Settings.nft_max_supply_and_token_id supply id) sender pool = require-cases _ _ pool
allowed-Asks (Settings.nft_max_collateral_cap most) sender pool = require-cases _ _ pool
allowed-Asks (Settings.active_flag_on_reserve balances flag) sender pool = require-cases _ _ pool
allowed-Asks (Settings.reserve_factor factor) sender pool = require-cases _ _ pool
allowed-Asks (Settings.reserve_interest_rate_address address) sender pool = require-cases _ _ pool
allowed-Asks (Settings.active_flag_on_nft collateral flag) sender pool = require-cases _ _ pool
allowed-Asks (Settings.nft_as_collateral ltv threshold bonus) sender pool = require-cases _ _ pool
allowed-Asks (Settings.nft_as_auction redeem auction fine) sender pool = require-cases _ _ pool
allowed-Asks (Settings.nft_redeem_threshold threshold) sender pool = require-cases _ _ pool
allowed-Asks (Settings.nft_min_bid_fine fine) sender pool = require-cases _ _ pool

pub Step-Keeps : {before after : Pool} → Step before after → IsGood before → Keeps before after
unfolding batch_config_nft batch_config_reserve set_borrowing_flag_on_reserve set_pool_pause
    set_pool_paused_time set_for_assets
Step-Keeps {before = b} {after = a} (configure_nfts sender inputs h) good =
    let (admin, all) = (batch_config_nft_accepts sender inputs b).0 (ap (λ r. r.0) h) in
    subst (Keeps b) (ap (λ r. r.1) (sym (batch_config_nft-ok sender inputs b admin all) ∙ h))
      (configured_all-Keeps inputs b all good)
Step-Keeps {before = b} {after = a} (configure_reserves sender inputs h) good =
    let (admin, all) = (batch_config_reserve_accepts sender inputs b).0 (ap (λ r. r.0) h) in
    subst (Keeps b) (ap (λ r. r.1) (sym (batch_config_reserve-ok sender inputs b admin all) ∙ h)) (
      reserves_only b (configured_reserves inputs b) (configured_reserves-ReservesOnly inputs b)
        (configured_reserves-ReservesSmall inputs b all good.reserves) good)
Step-Keeps {before = b} {after = a} (flag_borrowing sender assets flag h) good =
    let runs =
      asked-runs (only_risk_or_pool_admin sender)
        (λ p. (ok (tt {0}), set_borrowing_flags assets flag p)) b a (require-cases _ _ b) h in
    subst (Keeps b) (ap (λ r. r.1) runs) (
      reserves_only b (set_borrowing_flags assets flag b)
        (set_borrowing_flags-ReservesOnly assets flag b)
        (set_borrowing_flags-ReservesSmall assets flag b good.reserves) good)
Step-Keeps {before = b} {after = a} (pause sender val h) good =
    let runs =
      asked-runs (only_emergency_admin sender) (set_pause val) b a (require-cases _ _ b) h in
    subst (Keeps b) (ap (λ r. r.1) runs) (set_pause-Keeps val b good)
Step-Keeps {before = b} {after = a} (time_pause sender start_time duration_time h) good =
    let runs =
      asked-runs (only_emergency_admin sender)
        (λ p. (ok (tt {0}), set_paused_time start_time duration_time p)) b a (require-cases _ _ b)
        h in
    subst (Keeps b) (ap (λ r. r.1) runs) (set_paused_time-Keeps start_time duration_time b good)
Step-Keeps {before = b} {after = a} (set_all setting sender assets h) good =
    let runs =
      asked-runs (allowed setting sender) (for_each (setting_round setting) assets) b a
        (allowed-Asks setting sender b) h in
    subst (Keeps b) (ap (λ r. r.1) runs)
      (settings-Preserves setting assets b good (ap (λ r. r.0) runs))
Step-Keeps {before = b} {after = a} (wait time h e) good = subst (Keeps b) (sym e) (
  record { nfts = good.nfts; reserves = good.reserves },
  record { pool_admin = refl; emergency_admin = refl; risk_admin = refl; later = h },
)

-- From a good pool, every sequence, by any senders, of successful batches of NFTs and of reserves,
-- settings of the borrowing flag, pauses, settings of their times, and settings for lists of assets
-- of the flags, the factors, the rate strategies, the collateral and auction parameters and the
-- limits, with later blocks between them, leads to a good pool with the same pool, emergency and
-- risk admins and no earlier time. In a good pool every NFT has its loan to value within its
-- threshold, a bonus of at most 100 %, which is 0 where the threshold is 0, and a word below bit
-- 128; and every reserve has a word below bit 80.
pub Reach-Keeps : (start after : Pool) → IsGood start → Reach start after → Keeps start after
Reach-Keeps start after good here = (
  good,
  record { pool_admin = refl; emergency_admin = refl; risk_admin = refl; later = omega arith },
)
Reach-Keeps start after good (next {t = t} r step) =
    let (good_t, first) = Reach-Keeps start t good r in
    let (good_after, second) = Step-Keeps step good_t in
    (
      good_after,
      record {
        pool_admin = second.pool_admin ∙ first.pool_admin;
        emergency_admin = second.emergency_admin ∙ first.emergency_admin;
        risk_admin = second.risk_admin ∙ first.risk_admin;
        later = omega (arith, first.later, second.later);
      },
    )

-- Where the pause can be set, the emergency admin's transaction sets it.
set_pool_pause-sets :
    (sender : String) (val : Bool) (pool : Pool)
    → pool.emergency_admin ≡ sender
    → CanSet val pool
    → (after : Pool) × (set_pool_pause sender val pool ≡ (ok tt, after)) × (after.is_paused ≡ val)
set_pool_pause-sets sender val pool e can =
    let passed = set_pause-ok val pool can in
    let after = (set_pause val pool).1 in
    (
      after,
      set_pool_pause-runs sender val pool e
          ∙ atomic-ok (set_pause val) (ap (λ r. (r, after)) passed),
      set_pause-is_paused val pool passed,
    )

set_pool_paused_time-ok :
    (sender : String) (start_time duration_time : ℕ) (pool : Pool)
    → pool.emergency_admin ≡ sender
    → set_pool_paused_time sender start_time duration_time pool
      ≡ (ok tt, set_paused_time start_time duration_time pool)
unfolding set_pool_paused_time
set_pool_paused_time-ok sender start_time duration_time pool e =
    let f : Action Pool (Unit {0}) = λ p. (ok tt, set_paused_time start_time duration_time p) in
    atomic-ok (only_emergency_admin sender >> f)
      (bind-ok (only_emergency_admin sender) (λ _. f) (emergency_admin_asked sender pool e))

-- In every pool that such transactions and later blocks reach from a good one, the emergency admin
-- of the first pool can bring about either state: with one call of `setPoolPause` where that does
-- not end a pause that begins in the future, and always with a call of `setPoolPausedTime` before
-- it. Each call succeeds, the pool is then in the wanted state, and it is reachable too.
pub can_pause_and_resume :
    (start pool : Pool) (val : Bool)
    → IsGood start
    → Reach start pool
    → let admin = start.emergency_admin in
      (CanSet val pool
        → (after : Pool) × (set_pool_pause admin val pool ≡ (ok tt, after))
          × (after.is_paused ≡ val)
          × Reach start after)
      × ((mid after : Pool) × (set_pool_paused_time admin 0 0 pool ≡ (ok tt, mid))
          × (set_pool_pause admin val mid ≡ (ok tt, after))
          × (after.is_paused ≡ val)
          × Reach start after)
can_pause_and_resume start pool val good r =
    let (_, same) = Reach-Keeps start pool good r in
    let admin = start.emergency_admin in
    let mid = set_paused_time 0 0 pool in
    let timed = set_pool_paused_time-ok admin 0 0 pool same.emergency_admin in
    let (after, accepted, wanted) =
      set_pool_pause-sets admin val mid same.emergency_admin (λ _ _. omega arith) in
    (
      λ can.
          let (after', accepted', wanted') =
            set_pool_pause-sets admin val pool same.emergency_admin can in
          (after', accepted', wanted', next r (pause admin val accepted')),
      (
        mid,
        after,
        timed,
        accepted,
        wanted,
        next (next r (time_pause admin 0 0 timed)) (pause admin val accepted),
      ),
    )
