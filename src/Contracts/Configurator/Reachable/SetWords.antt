-- ===== src/Contracts/Configurator/Reachable/SetWords.antt =====
-- What the transactions for lists of assets leave in a word.
use mathlib.Core.Path.{subst}
use lender.Common.{
  sym, ap, ℕ, ◌%◌, ◌^◌, ◌≤◌, ◌<◌, ◌∙◌, Bool, true, false, ◌≡◌, ◌≢◌, ◌⊎◌, refl, inl, inr, leb, eqb,
  not, if◌then◌else◌, arith,
}
use lender.Contracts.Configurator.{require, set_reserve_factor}
use lender.Contracts.Configurator.Reachable.Set.{Safe, Small}
use lender.Contracts.Configurator.Reachable.Words.{SafeWord}
use lender.Contracts.Configurator.Settings.{
  set_reserve_active, set_reserve_frozen, collateral_word, auction_word,
}
use lender.Contracts.NftConfiguration.{
  set_bounded, put_bits, get_ltv, get_liquidation_threshold, get_liquidation_bonus, set_ltv,
  set_liquidation_threshold, set_liquidation_bonus, set_redeem_duration, set_auction_duration,
  set_redeem_fine, set_redeem_threshold, set_min_bid_fine, set_active, set_frozen,
}
use lender.Constants.{percentage_factor}
use lender.Failure.Laws.{err≢ok, bind-ok, bind-passed}
use lender.Types.ProtocolError.{ProtocolError, lpc_invalid_configuration}
use lender.Failure.{Failure, Action, ok, ◌>>◌}

-- The lowest 48 bits hold what makes a word safe.
low_bits-SafeWord :
    (word word' : ℕ)
    → word' % 2 ^ 48 ≡ word % 2 ^ 48
    → word' < 2 ^ 128
    → SafeWord word
    → SafeWord word'
unfolding get_ltv get_liquidation_threshold get_liquidation_bonus
low_bits-SafeWord word word' same small safe =
    let l : get_ltv word' ≡ get_ltv word = omega (arith, same) in
    let t : get_liquidation_threshold word' ≡ get_liquidation_threshold word =
      omega (arith, same) in
    let b : get_liquidation_bonus word' ≡ get_liquidation_bonus word = omega (arith, same) in
    record { ltv = rw (l, t) safe.ltv; bonus = rw (t, b) safe.bonus; size = small }

pub set_active-Safe : (flag : Bool) → Safe (λ word. (ok tt, set_active flag word))
unfolding set_active
set_active-Safe true word safe h =
    low_bits-SafeWord word _ (omega arith) (omega (arith, safe.size)) safe
set_active-Safe false word safe h =
    low_bits-SafeWord word _ (omega arith) (omega (arith, safe.size)) safe

pub set_frozen-Safe : (flag : Bool) → Safe (λ word. (ok tt, set_frozen flag word))
unfolding set_frozen
set_frozen-Safe true word safe h =
    low_bits-SafeWord word _ (omega arith) (omega (arith, safe.size)) safe
set_frozen-Safe false word safe h =
    low_bits-SafeWord word _ (omega arith) (omega (arith, safe.size)) safe

-- A setter that returns has put its value, which is in bounds; a sequence has run both its parts.
bounded-passed :
    (position width most : ℕ) (failure : Failure) (value word : ℕ)
    → (set_bounded position width most failure value word).0 ≡ ok tt
    → (value ≤ most)
      × ((set_bounded position width most failure value word).1
          ≡ put_bits word position width value)
bounded-passed position width most failure value word h = (ground arith, ground arith)

then-passed :
    (f g : Action ℕ (Unit {0})) (word : ℕ)
    → ((f >> g) word).0 ≡ ok tt
    → ((f word).0 ≡ ok tt) × ((g ((f word).1)).0 ≡ ok tt) × (((f >> g) word).1 ≡ (g ((f word).1)).1)
then-passed f g word h =
    let (_, done, rest) = bind-passed f (λ _. g) word h in
    (ap (λ r. r.0) done, rest, ap (λ r. r.1) (bind-ok f (λ _. g) done))

bind-Safe : (f g : Action ℕ (Unit {0})) → Safe f → Safe g → Safe (f >> g)
bind-Safe f g sf sg word safe h =
    let (first, second, same) = then-passed f g word h in
    subst SafeWord (sym same) (sg _ (sf word safe first) second)

require-same :
    (condition : Bool) (error : ProtocolError) (word : ℕ)
    → (require condition error word).0 ≡ ok tt
    → (condition ≡ true) × ((require condition error word).1 ≡ word)
require-same true error word h = (refl, refl)
require-same false error word h = absurd (err≢ok h)

require-Safe : (condition : Bool) (error : ProtocolError) → Safe (require condition error)
require-Safe condition error word safe h =
    subst SafeWord (sym ((require-same condition error word h).1)) safe

pub set_redeem_threshold-Safe : (threshold : ℕ) → Safe (set_redeem_threshold threshold)
unfolding set_redeem_threshold
set_redeem_threshold-Safe threshold word safe h =
    let (le, e) = bounded-passed 96 16 65535 _ threshold word h in
    subst SafeWord (sym e)
      (low_bits-SafeWord word _ (omega arith) (omega (arith, le, safe.size)) safe)

pub set_min_bid_fine-Safe : (fine : ℕ) → Safe (set_min_bid_fine fine)
unfolding set_min_bid_fine
set_min_bid_fine-Safe fine word safe h =
    let (le, e) = bounded-passed 112 16 65535 _ fine word h in
    subst SafeWord (sym e)
      (low_bits-SafeWord word _ (omega arith) (omega (arith, le, safe.size)) safe)

set_redeem_duration-Safe : (duration : ℕ) → Safe (set_redeem_duration duration)
unfolding set_redeem_duration
set_redeem_duration-Safe duration word safe h =
    let (le, e) = bounded-passed 64 8 255 _ duration word h in
    subst SafeWord (sym e)
      (low_bits-SafeWord word _ (omega arith) (omega (arith, le, safe.size)) safe)

set_auction_duration-Safe : (duration : ℕ) → Safe (set_auction_duration duration)
unfolding set_auction_duration
set_auction_duration-Safe duration word safe h =
    let (le, e) = bounded-passed 72 8 255 _ duration word h in
    subst SafeWord (sym e)
      (low_bits-SafeWord word _ (omega arith) (omega (arith, le, safe.size)) safe)

set_redeem_fine-Safe : (fine : ℕ) → Safe (set_redeem_fine fine)
unfolding set_redeem_fine
set_redeem_fine-Safe fine word safe h =
    let (le, e) = bounded-passed 80 16 65535 _ fine word h in
    subst SafeWord (sym e)
      (low_bits-SafeWord word _ (omega arith) (omega (arith, le, safe.size)) safe)

pub auction_word-Safe : (redeem auction fine : ℕ) → Safe (auction_word redeem auction fine)
unfolding auction_word
auction_word-Safe redeem auction fine = bind-Safe _ _ (require-Safe _ _) (
    bind-Safe _ _ (set_redeem_duration-Safe redeem)
      (bind-Safe _ _ (set_auction_duration-Safe auction) (set_redeem_fine-Safe fine)))

after_require :
    (condition : Bool) (error : ProtocolError) (g : Action ℕ (Unit {0})) (word : ℕ)
    → ((require condition error >> g) word).0 ≡ ok tt
    → (condition ≡ true)
      × ((g word).0 ≡ ok tt)
      × (((require condition error >> g) word).1 ≡ (g word).1)
after_require true error g word h = (refl, h, refl)
after_require false error g word h = absurd (err≢ok h)

after_set :
    (position width most : ℕ) (failure : Failure) (value : ℕ) (g : Action ℕ (Unit {0})) (word : ℕ)
    → ((set_bounded position width most failure value >> g) word).0 ≡ ok tt
    → (value ≤ most)
      × ((g (put_bits word position width value)).0 ≡ ok tt)
      × (((set_bounded position width most failure value >> g) word).1
          ≡ (g (put_bits word position width value)).1)
after_set position width most failure value g word h =
    let (first, rest, same) =
      then-passed (set_bounded position width most failure value) g word h in
    let (le, e) = bounded-passed position width most failure value word first in
    (le, subst (λ x. (g x).0 ≡ ok tt) e rest, same ∙ ap (λ x. (g x).1) e)

-- What the requirements on the collateral parameters ask for.
abbrev Collateral : ℕ → ℕ → ℕ → Type 0
Collateral ltv threshold bonus =
    (ltv ≤ threshold) × (((threshold ≢ 0) × (bonus ≤ 10000)) ⊎ ((threshold ≡ 0) × (bonus ≡ 0)))

Collateral-put :
    (ltv threshold bonus word : ℕ)
    → ltv ≤ 65535
    → threshold ≤ 65535
    → bonus ≤ 65535
    → Collateral ltv threshold bonus
    → word < 2 ^ 128
    → SafeWord (put_bits (put_bits (put_bits word 0 16 ltv) 16 16 threshold) 32 16 bonus)
unfolding get_ltv get_liquidation_threshold get_liquidation_bonus
Collateral-put ltv threshold bonus word hl ht hb (below, kind) small =
    let w = put_bits (put_bits (put_bits word 0 16 ltv) 16 16 threshold) 32 16 bonus in
    let l : get_ltv w ≡ ltv = omega arith in
    let t : get_liquidation_threshold w ≡ threshold = omega arith in
    let b : get_liquidation_bonus w ≡ bonus = omega arith in
    record { ltv = rw (l, t) below; bonus = rw (t, b) kind; size = omega arith }

-- The setters of the collateral parameters, once the requirements hold.
Collateral-set :
    (ltv threshold bonus word : ℕ)
    → Collateral ltv threshold bonus
    → word < 2 ^ 128
    → let set =
        set_ltv ltv >> (set_liquidation_threshold threshold >> set_liquidation_bonus bonus) in
      (set word).0 ≡ ok tt → SafeWord ((set word).1)
unfolding set_ltv set_liquidation_threshold set_liquidation_bonus
Collateral-set ltv threshold bonus word good small h =
    let (hl, h1, e1) =
      after_set 0 16 65535 _ ltv
        (set_liquidation_threshold threshold >> set_liquidation_bonus bonus) word h in
    let (ht, h2, e2) = after_set 16 16 65535 _ threshold (set_liquidation_bonus bonus) _ h1 in
    let (hb, e3) = bounded-passed 32 16 65535 _ bonus _ h2 in
    subst SafeWord (sym (e1 ∙ e2 ∙ e3))
      (Collateral-put ltv threshold bonus word hl ht hb good small)

-- The second requirement, by whether the threshold is 0.
collateral_required :
    (ltv threshold bonus word : ℕ) (zero : Bool)
    → eqb threshold 0 ≡ zero
    → ltv ≤ threshold
    → word < 2 ^ 128
    → let run =
        (if not zero
          then require (leb bonus percentage_factor) lpc_invalid_configuration
          else require (eqb bonus 0) lpc_invalid_configuration)
        >> (set_ltv ltv >> (set_liquidation_threshold threshold >> set_liquidation_bonus bonus)) in
      (run word).0 ≡ ok tt → SafeWord ((run word).1)
collateral_required ltv threshold bonus word true z below small h =
    let set = set_ltv ltv >> (set_liquidation_threshold threshold >> set_liquidation_bonus bonus) in
    let (c, rest, e) = after_require (eqb bonus 0) lpc_invalid_configuration set word h in
    let t : threshold ≡ 0 = ground (arith, z) in
    let b : bonus ≡ 0 = ground (arith, c) in
    subst SafeWord (sym e) (Collateral-set ltv threshold bonus word (below, inr (t, b)) small rest)
collateral_required ltv threshold bonus word false z below small h =
    let set = set_ltv ltv >> (set_liquidation_threshold threshold >> set_liquidation_bonus bonus) in
    let (c, rest, e) =
      after_require (leb bonus percentage_factor) lpc_invalid_configuration set word h in
    let t : threshold ≢ 0 = λ zero. ground (arith, z) in
    let b : bonus ≤ 10000 = ground (arith, c) in
    subst SafeWord (sym e) (Collateral-set ltv threshold bonus word (below, inl (t, b)) small rest)

pub collateral_word-Safe : (ltv threshold bonus : ℕ) → Safe (collateral_word ltv threshold bonus)
unfolding collateral_word
collateral_word-Safe ltv threshold bonus word safe h =
    let then_ =
      (if not (eqb threshold 0)
        then require (leb bonus percentage_factor) lpc_invalid_configuration
        else require (eqb bonus 0) lpc_invalid_configuration)
      >> (set_ltv ltv >> (set_liquidation_threshold threshold >> set_liquidation_bonus bonus)) in
    let (c, rest, e) = after_require (leb ltv threshold) lpc_invalid_configuration then_ word h in
    let below : ltv ≤ threshold = ground (arith, c) in
    subst SafeWord (sym e)
      (collateral_required ltv threshold bonus word (eqb threshold 0) refl below safe.size rest)

pub active-Small : (flag : Bool) → Small (λ word. (ok tt, set_reserve_active flag word))
unfolding set_reserve_active
active-Small true word small h = omega arith
active-Small false word small h = omega arith

pub frozen-Small : (flag : Bool) → Small (λ word. (ok tt, set_reserve_frozen flag word))
unfolding set_reserve_frozen
frozen-Small true word small h = omega arith
frozen-Small false word small h = omega arith

pub factor-Small : (factor : ℕ) → Small (set_reserve_factor factor)
unfolding set_reserve_factor
factor-Small factor word small h =
    let (le, e) = bounded-passed 64 16 65535 _ factor word h in
    subst (λ x. x < 2 ^ 80) (sym e) (omega arith)
