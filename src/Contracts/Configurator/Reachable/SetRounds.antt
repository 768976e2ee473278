-- ===== src/Contracts/Configurator/Reachable/SetRounds.antt =====
-- Each round of the transactions for lists of assets, and the whole transactions.
use lender.Common.{String, true, false, ◌==◌, ◌≡◌, refl, inl, inr, Bool-cases, List, arith}
use lender.Contracts.Configurator.Reachable.Kept.{IsGood, Keeps}
use lender.Contracts.Configurator.Reachable.Set.{
  Preserves, bind-Preserves, require-Preserves, same_Keeps, for_each-Preserves,
  on_nft_word-Preserves, on_reserve_word-Preserves,
}
use lender.Contracts.Configurator.Reachable.SetWords.{
  set_active-Safe, set_frozen-Safe, set_redeem_threshold-Safe, set_min_bid_fine-Safe,
  auction_word-Safe, collateral_word-Safe, active-Small, frozen-Small, factor-Small,
}
use lender.Contracts.Configurator.Settings
use lender.Contracts.Configurator.Settings.{Setting, setting_round, for_each}
use lender.Contracts.Pool.{Pool, NftData, ReserveData, update}
use lender.Failure.{ok}

-- A write to an asset that leaves its word.
nft_kept :
    (asset : String) (v : NftData) (pool : Pool)
    → v.configuration ≡ (pool.nfts asset).configuration
    → IsGood pool
    → Keeps pool (record pool { nfts = update pool.nfts asset v })
nft_kept asset v pool same good = (
  record {
    nfts = λ k. elim (Bool-cases (asset == k)) [
      | inl e ↦ rw (e, same) (good.nfts asset)
      | inr e ↦ rw e (good.nfts k)
    ];
    reserves = good.reserves;
  },
  record { pool_admin = refl; emergency_admin = refl; risk_admin = refl; later = omega arith },
)

reserve_kept :
    (asset : String) (v : ReserveData) (pool : Pool)
    → v.configuration ≡ (pool.reserves asset).configuration
    → IsGood pool
    → Keeps pool (record pool { reserves = update pool.reserves asset v })
reserve_kept asset v pool same good = (
  record {
    nfts = good.nfts;
    reserves = λ k. elim (Bool-cases (asset == k)) [
      | inl e ↦ rw (e, same) (good.reserves asset)
      | inr e ↦ rw e (good.reserves k)
    ];
  },
  record { pool_admin = refl; emergency_admin = refl; risk_admin = refl; later = omega arith },
)

skip_Preserves : Preserves (λ pool. (ok tt, pool))
skip_Preserves pool good h = same_Keeps pool good

setting_round-Preserves :
    (setting : Setting) (asset : String) → Preserves (setting_round setting asset)
unfolding setting_round
setting_round-Preserves (Settings.active_flag_on_reserve balances true) asset =
    bind-Preserves _ _ skip_Preserves (on_reserve_word-Preserves _ asset (active-Small true))
setting_round-Preserves (Settings.active_flag_on_reserve balances false) asset =
    bind-Preserves _ _ (λ pool. require-Preserves _ _ pool)
      (on_reserve_word-Preserves _ asset (active-Small false))
setting_round-Preserves (Settings.freeze_flag_on_reserve flag) asset =
    on_reserve_word-Preserves _ asset (frozen-Small flag)
setting_round-Preserves (Settings.reserve_factor factor) asset =
    on_reserve_word-Preserves _ asset (factor-Small factor)
setting_round-Preserves (Settings.reserve_interest_rate_address address) asset =
    λ pool good h. reserve_kept asset _ pool refl good
setting_round-Preserves (Settings.reserve_max_utilization_rate rate) asset =
    λ pool good h. reserve_kept asset _ pool refl good
setting_round-Preserves (Settings.active_flag_on_nft collateral true) asset =
    bind-Preserves _ _ skip_Preserves (on_nft_word-Preserves _ asset (set_active-Safe true))
setting_round-Preserves (Settings.active_flag_on_nft collateral false) asset =
    bind-Preserves _ _ (λ pool. require-Preserves _ _ pool)
      (on_nft_word-Preserves _ asset (set_active-Safe false))
setting_round-Preserves (Settings.freeze_flag_on_nft flag) asset =
    on_nft_word-Preserves _ asset (set_frozen-Safe flag)
setting_round-Preserves (Settings.nft_as_collateral ltv threshold bonus) asset =
    on_nft_word-Preserves _ asset (collateral_word-Safe ltv threshold bonus)
setting_round-Preserves (Settings.nft_as_auction redeem auction fine) asset =
    on_nft_word-Preserves _ asset (auction_word-Safe redeem auction fine)
setting_round-Preserves (Settings.nft_redeem_threshold threshold) asset =
    on_nft_word-Preserves _ asset (set_redeem_threshold-Safe threshold)
setting_round-Preserves (Settings.nft_min_bid_fine fine) asset =
    on_nft_word-Preserves _ asset (set_min_bid_fine-Safe fine)
setting_round-Preserves (Settings.nft_max_supply_and_token_id supply id) asset =
    λ pool good h. nft_kept asset _ pool refl good
setting_round-Preserves (Settings.nft_max_collateral_cap most) asset =
    λ pool good h. nft_kept asset _ pool refl good

pub settings-Preserves :
    (setting : Setting) (assets : List String) → Preserves (for_each (setting_round setting) assets)
settings-Preserves setting assets =
    for_each-Preserves (setting_round setting) assets (setting_round-Preserves setting)
