-- ===== src/Contracts/Configurator/Reachable/Words.antt =====
-- What a round of configuration leaves in the words of an NFT and of a reserve.
use lender.Common.{
  ℕ, String, Bool, true, false, ◌^◌, ◌≤◌, ◌<◌, ◌≡◌, ◌≢◌, ◌⊎◌, inl, inr, ◌==◌, Bool-cases, List, [],
  ◌∷◌, All, arith,
}
use lender.Contracts.Configurator.{
  ConfigNftInput, ConfigReserveInput, set_borrowing_flags, set_borrowing_enabled,
}
use lender.Contracts.Configurator.Acceptance.{Acceptable, equals_itself, configured}
use lender.Contracts.Configurator.Batch.{AllAcceptable, configured_all}
use lender.Contracts.Configurator.Reserves.{FactorFits, configured_reserve, configured_reserves}
use lender.Contracts.Configurator.Word.{encode, encode-Holds, encode_small}
use lender.Contracts.NftConfiguration.{
  get_ltv, get_liquidation_threshold, get_liquidation_bonus, put_bits,
}
use lender.Contracts.Pool.{Pool}

-- A loan never exceeds the liquidation threshold, and the bonus is at most 100 %, and 0 where nothing
-- can be liquidated. No bit above the last field is set.
pub record SafeWord (word : ℕ) : Type 0 where
  pub ltv : get_ltv word ≤ get_liquidation_threshold word
  pub bonus :
      ((get_liquidation_threshold word ≢ 0) × (get_liquidation_bonus word ≤ 10000))
      ⊎ ((get_liquidation_threshold word ≡ 0) × (get_liquidation_bonus word ≡ 0))
  pub size : word < 2 ^ 128

encode-SafeWord :
    (i : ConfigNftInput) (word : ℕ) → Acceptable i → word < 2 ^ 128 → SafeWord (encode i word)
encode-SafeWord i word h small =
    let holds = encode-Holds i word h.fits in
    record {
      ltv = rw (holds.ltv, holds.liquidation_threshold) h.safe.ltv;
      bonus = rw (holds.liquidation_threshold, holds.liquidation_bonus) h.safe.bonus;
      size = encode_small i word h.fits small;
    }

-- The words of every NFT.
abbrev pub NftsSafe : Pool → Type 0
NftsSafe pool = (k : String) → SafeWord ((pool.nfts k).configuration)

configured-NftsSafe :
    (i : ConfigNftInput) (pool : Pool) → Acceptable i → NftsSafe pool → NftsSafe (configured i pool)
configured-NftsSafe i pool h safe k = elim (Bool-cases (i.asset == k)) [
  | inl e ↦
      rw (e, equals_itself i.asset)
        (encode-SafeWord i ((pool.nfts i.asset).configuration) h (safe i.asset).size)
  | inr e ↦ rw e (safe k)
]

pub configured_all-NftsSafe :
    (inputs : List ConfigNftInput) (pool : Pool)
    → AllAcceptable inputs
    → NftsSafe pool
    → NftsSafe (configured_all inputs pool)
unfolding configured_all
configured_all-NftsSafe [] pool h safe = safe
configured_all-NftsSafe (i ∷ is) pool (h, hs) safe =
    configured_all-NftsSafe is (configured i pool) hs (configured-NftsSafe i pool h safe)

-- The words of every reserve stay below bit 80.
abbrev pub ReservesSmall : Pool → Type 0
ReservesSmall pool = (k : String) → (pool.reserves k).configuration < 2 ^ 80

put_factor_small :
    (word factor : ℕ) → factor ≤ 65535 → word < 2 ^ 80 → put_bits word 64 16 factor < 2 ^ 80
put_factor_small word factor h small = omega arith

put_flag_small : (word : ℕ) (flag : Bool) → word < 2 ^ 80 → set_borrowing_enabled flag word < 2 ^ 80
unfolding set_borrowing_enabled
put_flag_small word true small = omega arith
put_flag_small word false small = omega arith

pub configured_reserves-ReservesSmall :
    (inputs : List ConfigReserveInput) (pool : Pool)
    → All FactorFits inputs
    → ReservesSmall pool
    → ReservesSmall (configured_reserves inputs pool)
unfolding configured_reserves
configured_reserves-ReservesSmall [] pool h small = small
configured_reserves-ReservesSmall (i ∷ is) pool (h, hs) small =
    configured_reserves-ReservesSmall is (configured_reserve i pool) hs λ k.
      elim (Bool-cases (i.asset == k)) [
        | inl e ↦
            rw (e, equals_itself i.asset)
              (put_factor_small ((pool.reserves i.asset).configuration) i.reserve_factor h
                (small i.asset))
        | inr e ↦ rw e (small k)
      ]

pub set_borrowing_flags-ReservesSmall :
    (assets : List String) (flag : Bool) (pool : Pool)
    → ReservesSmall pool
    → ReservesSmall (set_borrowing_flags assets flag pool)
unfolding set_borrowing_flags
set_borrowing_flags-ReservesSmall [] flag pool small = small
set_borrowing_flags-ReservesSmall (asset ∷ assets) flag pool small =
    set_borrowing_flags-ReservesSmall assets flag _ λ k. elim (Bool-cases (asset == k)) [
      | inl e ↦ rw e (put_flag_small ((pool.reserves asset).configuration) _ (small asset))
      | inr e ↦ rw e (small k)
    ]
