-- ===== src/Contracts/Configurator/Word.antt =====
-- The word that the setters of one round store: which inputs they accept, and what the word says.
use lender.Common.{ℕ, ◌^◌, ◌<◌, ◌≤◌, ◌≡◌, refl, sym, ap, ◌∙◌, arith, eqb, not, List, [], ◌∷◌, All}
use lender.Contracts.Configurator.{ConfigNftInput, configure_word}
use lender.Contracts.NftConfiguration.{
  set_bounded, put_bits, get_bits, set_ltv, set_liquidation_threshold, set_liquidation_bonus,
  set_redeem_duration, set_auction_duration, set_redeem_fine, set_redeem_threshold,
  set_min_bid_fine, get_ltv, get_liquidation_threshold, get_liquidation_bonus, get_redeem_duration,
  get_auction_duration, get_redeem_fine, get_redeem_threshold, get_min_bid_fine, get_active,
  get_frozen,
}
use lender.Failure.{Failure, reverted, reverted_with, Action, ok, ◌>>◌}
use lender.Types.ProtocolError.{
  rc_invalid_ltv, rc_invalid_liq_threshold, rc_invalid_liq_bonus, rc_invalid_redeem_duration,
  rc_invalid_auction_duration, rc_invalid_redeem_fine,
}

-- Every value fits the field that it is written to.
pub record Fits (input : ConfigNftInput) : Type 0 where
  pub ltv : input.base_ltv ≤ 65535
  pub liquidation_threshold : input.liquidation_threshold ≤ 65535
  pub liquidation_bonus : input.liquidation_bonus ≤ 65535
  pub redeem_duration : input.redeem_duration ≤ 255
  pub auction_duration : input.auction_duration ≤ 255
  pub redeem_fine : input.redeem_fine ≤ 65535
  pub redeem_threshold : input.redeem_threshold ≤ 65535
  pub min_bid_fine : input.min_bid_fine ≤ 65535

-- One bounded write of a field, and writes in a row.
record Write : Type 0 where
  position : ℕ
  width : ℕ
  most : ℕ
  failure : Failure
  value : ℕ

abbrev write : Write → Action ℕ (Unit {0})
write w = set_bounded w.position w.width w.most w.failure w.value

abbrev put : Write → ℕ → ℕ
put w word = put_bits word w.position w.width w.value

abbrev run : List Write → Action ℕ (Unit {0})
run [] word = (ok tt, word)
run (w ∷ []) word = write w word
run (w ∷ w' ∷ ws) word = (write w >> run (w' ∷ ws)) word

abbrev put_all : List Write → ℕ → ℕ
put_all [] word = word
put_all (w ∷ ws) word = put_all ws (put w word)

abbrev Bounded : List Write → Type 0
Bounded = All (λ w. w.value ≤ w.most)

write-ok : (w : Write) (word : ℕ) → w.value ≤ w.most → write w word ≡ (ok tt, put w word)
write-ok w word h = ground arith

write-passed : (w : Write) (word : ℕ) → (write w word).0 ≡ ok tt → w.value ≤ w.most
write-passed w word h = ground arith

then-ok :
    (w : Write) (k : Action ℕ (Unit {0})) (word : ℕ)
    → w.value ≤ w.most
    → (write w >> k) word ≡ k (put w word)
then-ok w k word h = ground arith

then-passed :
    (w : Write) (k : Action ℕ (Unit {0})) (word : ℕ)
    → ((write w >> k) word).0 ≡ ok tt
    → w.value ≤ w.most
then-passed w k word h = ground arith

run-ok : (ws : List Write) (word : ℕ) → Bounded ws → run ws word ≡ (ok tt, put_all ws word)
run-ok [] word h = refl
run-ok (w ∷ []) word (h, hs) = write-ok w word h
run-ok (w ∷ w' ∷ ws) word (h, hs) =
    then-ok w (run (w' ∷ ws)) word h ∙ run-ok (w' ∷ ws) (put w word) hs

run-passed : (ws : List Write) (word : ℕ) → (run ws word).0 ≡ ok tt → Bounded ws
run-passed [] word h = tt
run-passed (w ∷ []) word h = (write-passed w word h, tt)
run-passed (w ∷ w' ∷ ws) word h =
    let b : w.value ≤ w.most = then-passed w (run (w' ∷ ws)) word h in
    (
      b,
      run-passed (w' ∷ ws) (put w word)
          (ap (λ r. r.0) (sym (then-ok w (run (w' ∷ ws)) word b)) ∙ h),
    )

writes : ConfigNftInput → List Write
writes i =
    record {
      position = 0;
      width = 16;
      most = 65535;
      failure = reverted rc_invalid_ltv;
      value = i.base_ltv;
    }
    ∷ record {
      position = 16;
      width = 16;
      most = 65535;
      failure = reverted rc_invalid_liq_threshold;
      value = i.liquidation_threshold;
    }
    ∷ record {
      position = 32;
      width = 16;
      most = 65535;
      failure = reverted rc_invalid_liq_bonus;
      value = i.liquidation_bonus;
    }
    ∷ record {
      position = 64;
      width = 8;
      most = 255;
      failure = reverted rc_invalid_redeem_duration;
      value = i.redeem_duration;
    }
    ∷ record {
      position = 72;
      width = 8;
      most = 255;
      failure = reverted rc_invalid_auction_duration;
      value = i.auction_duration;
    }
    ∷ record {
      position = 80;
      width = 16;
      most = 65535;
      failure = reverted rc_invalid_redeem_fine;
      value = i.redeem_fine;
    }
    ∷ record {
      position = 96;
      width = 16;
      most = 65535;
      failure = reverted_with "738";
      value = i.redeem_threshold;
    }
    ∷ record {
      position = 112;
      width = 16;
      most = 65535;
      failure = reverted_with "739";
      value = i.min_bid_fine;
    }
    ∷ []

-- The word after the eight writes.
unfoldable pub encode : ConfigNftInput → ℕ → ℕ
unfolding writes
encode i word = put_all (writes i) word

configure_word-run : (i : ConfigNftInput) (word : ℕ) → configure_word i word ≡ run (writes i) word
unfolding configure_word writes set_ltv set_liquidation_threshold set_liquidation_bonus
    set_redeem_duration set_auction_duration set_redeem_fine set_redeem_threshold set_min_bid_fine
configure_word-run i word = refl

pub configure_word-ok :
    (input : ConfigNftInput) (word : ℕ)
    → Fits input
    → configure_word input word ≡ (ok tt, encode input word)
unfolding encode writes
configure_word-ok i word fits =
    configure_word-run i word
    ∙ run-ok (writes i) word (
      fits.ltv,
      (
        fits.liquidation_threshold,
        (
          fits.liquidation_bonus,
          (
            fits.redeem_duration,
            (
              fits.auction_duration,
              (fits.redeem_fine, (fits.redeem_threshold, (fits.min_bid_fine, tt))),
            ),
          ),
        ),
      ),
    )

pub configure_word-passed :
    (input : ConfigNftInput) (word : ℕ) → (configure_word input word).0 ≡ ok tt → Fits input
unfolding writes
configure_word-passed i word h =
    let (a, (b, (c, (d, (e, (f, (g, (k, done)))))))) =
      run-passed (writes i) word (ap (λ r. r.0) (sym (configure_word-run i word)) ∙ h) in
    record {
      ltv = a;
      liquidation_threshold = b;
      liquidation_bonus = c;
      redeem_duration = d;
      auction_duration = e;
      redeem_fine = f;
      redeem_threshold = g;
      min_bid_fine = k;
    }

-- What a word says, field by field.
pub record Holds (input : ConfigNftInput) (word : ℕ) : Type 0 where
  pub ltv : get_ltv word ≡ input.base_ltv
  pub liquidation_threshold : get_liquidation_threshold word ≡ input.liquidation_threshold
  pub liquidation_bonus : get_liquidation_bonus word ≡ input.liquidation_bonus
  pub redeem_duration : get_redeem_duration word ≡ input.redeem_duration
  pub auction_duration : get_auction_duration word ≡ input.auction_duration
  pub redeem_fine : get_redeem_fine word ≡ input.redeem_fine
  pub redeem_threshold : get_redeem_threshold word ≡ input.redeem_threshold
  pub min_bid_fine : get_min_bid_fine word ≡ input.min_bid_fine

flag_kept :
    (i : ConfigNftInput) (word : ℕ)
    → Fits i
    → (get_bits (encode i word) 56 1 ≡ get_bits word 56 1)
      × (get_bits (encode i word) 57 1 ≡ get_bits word 57 1)
unfolding encode writes
flag_kept i word f = (omega arith, omega arith)

pub encode-Holds : (i : ConfigNftInput) (word : ℕ) → Fits i → Holds i (encode i word)
unfolding encode writes get_ltv get_liquidation_threshold get_liquidation_bonus get_redeem_duration
    get_auction_duration get_redeem_fine get_redeem_threshold get_min_bid_fine
encode-Holds i word f = record {
  ltv = omega arith;
  liquidation_threshold = omega arith;
  liquidation_bonus = omega arith;
  redeem_duration = omega arith;
  auction_duration = omega arith;
  redeem_fine = omega arith;
  redeem_threshold = omega arith;
  min_bid_fine = omega arith;
}

pub encode_flags :
    (i : ConfigNftInput) (word : ℕ)
    → Fits i
    → (get_active (encode i word) ≡ get_active word)
      × (get_frozen (encode i word) ≡ get_frozen word)
unfolding get_active get_frozen
encode_flags i word f = (
  ap (λ b. not (eqb b 0)) ((flag_kept i word f).0),
  ap (λ b. not (eqb b 0)) ((flag_kept i word f).1),
)

-- The fields end below bit 128.
pub encode_small :
    (i : ConfigNftInput) (word : ℕ) → Fits i → word < 2 ^ 128 → encode i word < 2 ^ 128
unfolding encode writes
encode_small i word f h = omega arith
