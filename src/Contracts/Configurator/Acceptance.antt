-- ===== src/Contracts/Configurator/Acceptance.antt =====
-- Which inputs the configurator accepts for an NFT, and what it then records.
use lender.Common.{
  leb, eqb, ◌&&◌, Bool, true, if◌then◌else◌, leb_iff, ℕ, String, ◌≤◌, ◌≡◌, ◌≢◌, ◌⊎◌, refl, ap, ◌∙◌,
  inl, inr, arith, ◌==◌, eq_iff, true, false,
}
use lender.Contracts.Configurator.{
  ConfigNftInput, configure_word, check_collateral, store_nft, config_nft, write_nft,
}
use lender.Contracts.Configurator.Word.{
  Fits, Holds, encode, encode-Holds, encode_flags, configure_word-ok, configure_word-passed,
}
use lender.Contracts.NftConfiguration.{get_active, get_frozen}
use lender.Contracts.Pool.{Pool, NftData}
use lender.Failure.{ok}
use lender.Failure.Laws.{bind-ok, bind-passed, Result-cases, err≢ok}

-- The collateral parameters: the loan to value is within the threshold, and the bonus is at most
-- 100 %, and 0 where there is no threshold.
pub record SafeCollateral (input : ConfigNftInput) : Type 0 where
  pub ltv : input.base_ltv ≤ input.liquidation_threshold
  pub bonus :
      ((input.liquidation_threshold ≢ 0) × (input.liquidation_bonus ≤ 10000))
      ⊎ ((input.liquidation_threshold ≡ 0) × (input.liquidation_bonus ≡ 0))

check_collateral-ok :
    (input : ConfigNftInput) (pool : Pool)
    → SafeCollateral input
    → check_collateral input pool ≡ (ok tt, pool)
unfolding check_collateral
check_collateral-ok input pool safe = let ltv = safe.ltv in let bonus = safe.bonus in ground arith

check_collateral-passed :
    (input : ConfigNftInput) (pool : Pool)
    → (check_collateral input pool).0 ≡ ok tt
    → SafeCollateral input
unfolding check_collateral
check_collateral-passed input pool h = record { ltv = ground arith; bonus = ground arith }

-- An input that the configurator accepts.
pub record Acceptable (input : ConfigNftInput) : Type 0 where
  pub fits : Fits input
  pub safe : SafeCollateral input

store_nft-ok :
    (input : ConfigNftInput) (pool : Pool)
    → Fits input
    → store_nft input pool
      ≡ (ok tt, write_nft input (encode input ((pool.nfts input.asset).configuration)) pool)
unfolding store_nft
store_nft-ok input pool fits =
    let e = configure_word-ok input ((pool.nfts input.asset).configuration) fits in
    rw (e, store_nft) (ap (λ r. (ok tt, write_nft input (r.1) pool)) e)

store_nft-passed :
    (input : ConfigNftInput) (pool : Pool) → (store_nft input pool).0 ≡ ok tt → Fits input
unfolding store_nft
store_nft-passed input pool h =
    elim (Result-cases ((configure_word input ((pool.nfts input.asset).configuration)).0)) [
      | inl (a, e) ↦ configure_word-passed input _ e
      | inr (e, eq) ↦ absurd (err≢ok (rw (eq, store_nft) at h))
    ]

pub config_nft-ok :
    (input : ConfigNftInput) (pool : Pool)
    → Acceptable input
    → config_nft input pool
      ≡ (ok tt, write_nft input (encode input ((pool.nfts input.asset).configuration)) pool)
unfolding config_nft
config_nft-ok input pool h =
    bind-ok (check_collateral input) (λ _. store_nft input) (check_collateral-ok input pool h.safe)
    ∙ store_nft-ok input pool h.fits

pub config_nft-passed :
    (input : ConfigNftInput) (pool : Pool) → (config_nft input pool).0 ≡ ok tt → Acceptable input
unfolding config_nft
config_nft-passed input pool h =
    let (a, checked, stored) = bind-passed (check_collateral input) (λ _. store_nft input) pool h in
    record {
      fits = store_nft-passed input _ stored;
      safe = check_collateral-passed input pool (ap (λ r. r.0) checked);
    }

-- What a configuration leaves alone in the record of an NFT.
pub record Kept (before after : NftData) : Type 0 where
  pub active : get_active after.configuration ≡ get_active before.configuration
  pub frozen : get_frozen after.configuration ≡ get_frozen before.configuration
  pub b_nft_address : after.b_nft_address ≡ before.b_nft_address
  pub id : after.id ≡ before.id

-- The record of an NFT that has been configured by an input.
pub record Configured (input : ConfigNftInput) (before after : NftData) : Type 0 where
  pub holds : Holds input after.configuration
  pub max_supply : after.max_supply ≡ input.max_supply
  pub max_token_id : after.max_token_id ≡ input.max_token_id
  pub max_collateral_cap : after.max_collateral_cap ≡ input.max_collateral_cap
  pub kept : Kept before after

-- The pool that `config_nft` leaves.
abbrev pub configured : ConfigNftInput → Pool → Pool
configured input pool = write_nft input (encode input ((pool.nfts input.asset).configuration)) pool

pub write_nft_other :
    (input : ConfigNftInput) (word : ℕ) (pool : Pool) (k : String)
    → (input.asset == k) ≡ false
    → (write_nft input word pool).nfts k ≡ pool.nfts k
write_nft_other input word pool k h = rw h refl

pub equals_itself : (s : String) → (s == s) ≡ true
equals_itself s = (eq_iff s s).1 refl

pub write_nft_at :
    (input : ConfigNftInput) (word : ℕ) (pool : Pool)
    → (write_nft input word pool).nfts input.asset ≡ record (pool.nfts input.asset) {
      configuration = word;
      max_supply = input.max_supply;
      max_token_id = input.max_token_id;
      max_collateral_cap = input.max_collateral_cap;
    }
write_nft_at input word pool = rw (equals_itself input.asset) refl

-- The record of the input's own asset after a round.
pub configured-Configured :
    (input : ConfigNftInput) (pool : Pool)
    → Fits input
    → Configured input (pool.nfts input.asset) ((configured input pool).nfts input.asset)
configured-Configured input pool fits =
    rw (write_nft_at input (encode input ((pool.nfts input.asset).configuration)) pool) record {
      holds = encode-Holds input ((pool.nfts input.asset).configuration) fits;
      max_supply = refl;
      max_token_id = refl;
      max_collateral_cap = refl;
      kept = record {
        active = (encode_flags input ((pool.nfts input.asset).configuration) fits).0;
        frozen = (encode_flags input ((pool.nfts input.asset).configuration) fits).1;
        b_nft_address = refl;
        id = refl;
      };
    }

pub Kept-trans : {a b c : NftData} → Kept a b → Kept b c → Kept a c
Kept-trans h k = record {
  active = k.active ∙ h.active;
  frozen = k.frozen ∙ h.frozen;
  b_nft_address = k.b_nft_address ∙ h.b_nft_address;
  id = k.id ∙ h.id;
}

-- The test of acceptability, for parameters that are given as numbers.
abbrev pub accepts : ConfigNftInput → Bool
accepts i =
    (leb i.base_ltv 65535
      && (leb i.liquidation_threshold 65535
          && (leb i.liquidation_bonus 65535
              && (leb i.redeem_duration 255
                  && (leb i.auction_duration 255
                      && (leb i.redeem_fine 65535
                          && (leb i.redeem_threshold 65535 && leb i.min_bid_fine 65535)))))))
    && (leb i.base_ltv i.liquidation_threshold
        && (if eqb i.liquidation_threshold 0
            then eqb i.liquidation_bonus 0
            else leb i.liquidation_bonus 10000))

both : (a b : Bool) → (a && b) ≡ true → (a ≡ true) × (b ≡ true)
both true b h = (refl, h)
both false b h = ground arith

accepts-Fits : (i : ConfigNftInput) → accepts i ≡ true → Fits i
accepts-Fits i h =
    let (f, s) = both _ _ h in
    let (a1, f1) = both _ _ f in
    let (a2, f2) = both _ _ f1 in
    let (a3, f3) = both _ _ f2 in
    let (a4, f4) = both _ _ f3 in
    let (a5, f5) = both _ _ f4 in
    let (a6, f6) = both _ _ f5 in
    let (a7, a8) = both _ _ f6 in
    record {
      ltv = (leb_iff _ _).0 a1;
      liquidation_threshold = (leb_iff _ _).0 a2;
      liquidation_bonus = (leb_iff _ _).0 a3;
      redeem_duration = (leb_iff _ _).0 a4;
      auction_duration = (leb_iff _ _).0 a5;
      redeem_fine = (leb_iff _ _).0 a6;
      redeem_threshold = (leb_iff _ _).0 a7;
      min_bid_fine = (leb_iff _ _).0 a8;
    }

bonus_test :
    (threshold bonus : ℕ)
    → (if eqb threshold 0 then eqb bonus 0 else leb bonus 10000) ≡ true
    → ((threshold ≢ 0) × (bonus ≤ 10000)) ⊎ ((threshold ≡ 0) × (bonus ≡ 0))
bonus_test threshold bonus h = ground arith

pub accepts-Acceptable : (i : ConfigNftInput) → accepts i ≡ true → Acceptable i
accepts-Acceptable i h =
    let (fits, safe) = both _ _ h in
    let (ltv, bonus) = both _ _ safe in
    record {
      fits = accepts-Fits i h;
      safe = record {
        ltv = (leb_iff _ _).0 ltv;
        bonus = bonus_test i.liquidation_threshold i.liquidation_bonus bonus;
      };
    }
