-- ===== src/Contracts/NftConfiguration.antt =====
-- contracts/libraries/configuration/NftConfiguration.sol: the configuration of an NFT packed into
-- one word. A field of width `w` at bit `p` is read by `/ 2 ^ p % 2 ^ w`, which is the masking and
-- shifting of the source; a write replaces that field and no other bit.
use lender.Common.{ℕ, ◌+◌, ◌-◌, ◌*◌, ◌/◌, ◌%◌, ◌^◌, Bool, not, leb, eqb, if◌then◌else◌}
use lender.Failure.{Failure, reverted, reverted_with, ok, err, Action}
use lender.Types.ProtocolError.{
  rc_invalid_ltv, rc_invalid_liq_threshold, rc_invalid_liq_bonus, rc_invalid_redeem_duration,
  rc_invalid_auction_duration, rc_invalid_redeem_fine,
}

-- `(data & ~MASK) >> POSITION`
abbrev pub get_bits : ℕ → ℕ → ℕ → ℕ
get_bits data_word position width = data_word / 2 ^ position % 2 ^ width

-- `(data & MASK) | (value << POSITION)`, for a value below `2 ^ width`
abbrev pub put_bits : ℕ → ℕ → ℕ → ℕ → ℕ
put_bits data_word position width value =
    data_word - get_bits data_word position width * 2 ^ position + value * 2 ^ position

abbrev pub bit_of : Bool → ℕ
bit_of flag = if flag then 1 else 0

-- A setter that first requires its value to be at most `most`.
abbrev pub set_bounded : ℕ → ℕ → ℕ → Failure → ℕ → Action ℕ (Unit {0})
set_bounded position width most failure value data_word =
    if leb value most
    then (ok tt, put_bits data_word position width value)
    else (err failure, data_word)

-- `setLtv`
unfoldable pub set_ltv : ℕ → Action ℕ (Unit {0})
set_ltv = set_bounded 0 16 65535 (reverted rc_invalid_ltv)

-- `getLtv`
unfoldable pub get_ltv : ℕ → ℕ
get_ltv data_word = get_bits data_word 0 16

-- `setLiquidationThreshold`
unfoldable pub set_liquidation_threshold : ℕ → Action ℕ (Unit {0})
set_liquidation_threshold = set_bounded 16 16 65535 (reverted rc_invalid_liq_threshold)

-- `getLiquidationThreshold`
unfoldable pub get_liquidation_threshold : ℕ → ℕ
get_liquidation_threshold data_word = get_bits data_word 16 16

-- `setLiquidationBonus`
unfoldable pub set_liquidation_bonus : ℕ → Action ℕ (Unit {0})
set_liquidation_bonus = set_bounded 32 16 65535 (reverted rc_invalid_liq_bonus)

-- `getLiquidationBonus`
unfoldable pub get_liquidation_bonus : ℕ → ℕ
get_liquidation_bonus data_word = get_bits data_word 32 16

-- `setRedeemDuration`
unfoldable pub set_redeem_duration : ℕ → Action ℕ (Unit {0})
set_redeem_duration = set_bounded 64 8 255 (reverted rc_invalid_redeem_duration)

-- `getRedeemDuration`
unfoldable pub get_redeem_duration : ℕ → ℕ
get_redeem_duration data_word = get_bits data_word 64 8

-- `setAuctionDuration`
unfoldable pub set_auction_duration : ℕ → Action ℕ (Unit {0})
set_auction_duration = set_bounded 72 8 255 (reverted rc_invalid_auction_duration)

-- `getAuctionDuration`
unfoldable pub get_auction_duration : ℕ → ℕ
get_auction_duration data_word = get_bits data_word 72 8

-- `setRedeemFine`
unfoldable pub set_redeem_fine : ℕ → Action ℕ (Unit {0})
set_redeem_fine = set_bounded 80 16 65535 (reverted rc_invalid_redeem_fine)

-- `getRedeemFine`
unfoldable pub get_redeem_fine : ℕ → ℕ
get_redeem_fine data_word = get_bits data_word 80 16

-- `setRedeemThreshold`
unfoldable pub set_redeem_threshold : ℕ → Action ℕ (Unit {0})
set_redeem_threshold = set_bounded 96 16 65535 (reverted_with "738")

-- `getRedeemThreshold`
unfoldable pub get_redeem_threshold : ℕ → ℕ
get_redeem_threshold data_word = get_bits data_word 96 16

-- `setMinBidFine`
unfoldable pub set_min_bid_fine : ℕ → Action ℕ (Unit {0})
set_min_bid_fine = set_bounded 112 16 65535 (reverted_with "739")

-- `getMinBidFine`
unfoldable pub get_min_bid_fine : ℕ → ℕ
get_min_bid_fine data_word = get_bits data_word 112 16

-- `setActive`
unfoldable pub set_active : Bool → ℕ → ℕ
set_active flag data_word = put_bits data_word 56 1 (bit_of flag)

-- `getActive`
unfoldable pub get_active : ℕ → Bool
get_active data_word = not (eqb (get_bits data_word 56 1) 0)

-- `setFrozen`
unfoldable pub set_frozen : Bool → ℕ → ℕ
set_frozen flag data_word = put_bits data_word 57 1 (bit_of flag)

-- `getFrozen`
unfoldable pub get_frozen : ℕ → Bool
get_frozen data_word = not (eqb (get_bits data_word 57 1) 0)
