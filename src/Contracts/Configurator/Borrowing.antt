-- ===== src/Contracts/Configurator/Borrowing.antt =====
-- What the borrowing flag records of every reserve, alone and after a batch.
use mathlib.Core.Path.{subst}
use lender.Common.{
  ℕ, String, ◌≡◌, refl, sym, ap, ◌∙◌, inl, inr, ◌==◌, eq_iff, true, false, if◌then◌else◌, Bool,
  Bool-cases, eqb, not, List, [], ◌∷◌, arith, Option, none,
}
use lender.Contracts.Configurator.{
  ConfigReserveInput, get_reserve_factor, get_borrowing_enabled, set_borrowing_enabled,
  set_borrowing_flags,
}
use lender.Contracts.Configurator.Acceptance.{equals_itself}
use lender.Contracts.NftConfiguration.{put_bits, get_bits}
use lender.Contracts.Pool.{Pool, ReserveData, set_reserve_configuration}
use lender.Utils.Objects.{includes}
use lender.Contracts.Configurator.Recorded.{SameReserve-refl, SameReserve-trans, ReserveOutcome}

put_flag :
    (word : ℕ)
    → (get_bits (put_bits word 58 1 1) 64 16 ≡ get_bits word 64 16)
      × (get_bits (put_bits word 58 1 1) 58 1 ≡ 1)
put_flag word = (omega arith, omega arith)

-- One turn of the loop on the flag.
enable : String → Pool → Pool
enable asset pool =
    set_reserve_configuration asset
      (set_borrowing_enabled true ((pool.reserves asset).configuration)) pool

enable_at :
    (pool : Pool) (k : String)
    → ReserveOutcome (pool.reserves k) ((enable k pool).reserves k) none true
unfolding enable get_reserve_factor get_borrowing_enabled set_borrowing_enabled
enable_at pool k = rw (equals_itself k) record {
  factor = (put_flag ((pool.reserves k).configuration)).0;
  rate = refl;
  borrowing = ap (λ b. not (eqb b 0)) ((put_flag ((pool.reserves k).configuration)).1);
  same = record {
    b_token_address = refl;
    debt_token_address = refl;
    interest_rate_address = refl;
    current_liquidity_rate = refl;
    id = refl;
  };
}

enable_other :
    (pool : Pool) (asset k : String)
    → (asset == k) ≡ false
    → (enable asset pool).reserves k ≡ pool.reserves k
unfolding enable
enable_other pool asset k h = rw h refl

-- A reserve whose flag is set, and what later turns leave of it.
flag_stays :
    {a b c : ReserveData} (included : Bool)
    → ReserveOutcome a b none true
    → ReserveOutcome b c none (if included then true else get_borrowing_enabled b.configuration)
    → ReserveOutcome a c none true
flag_stays true h k = record {
  factor = k.factor ∙ h.factor;
  rate = k.rate ∙ h.rate;
  borrowing = k.borrowing;
  same = SameReserve-trans h.same k.same;
}
flag_stays false h k = record {
  factor = k.factor ∙ h.factor;
  rate = k.rate ∙ h.rate;
  borrowing = k.borrowing ∙ h.borrowing;
  same = SameReserve-trans h.same k.same;
}

pub set_borrowing_flags-Outcome :
    (assets : List String) (pool : Pool) (k : String)
    → ReserveOutcome (pool.reserves k) ((set_borrowing_flags assets true pool).reserves k) none (
        if includes assets k then true else get_borrowing_enabled ((pool.reserves k).configuration))
unfolding set_borrowing_flags enable
set_borrowing_flags-Outcome [] pool k = record {
  factor = refl;
  rate = refl;
  borrowing = refl;
  same = SameReserve-refl (pool.reserves k);
}
set_borrowing_flags-Outcome (asset ∷ assets) pool k =
    let later = set_borrowing_flags-Outcome assets (enable asset pool) k in
    elim (Bool-cases (asset == k)) [
      | inl here ↦
          let first =
            subst (λ j. ReserveOutcome (pool.reserves j) ((enable asset pool).reserves j) none true)
              ((eq_iff asset k).0 here) (enable_at pool asset) in
          subst
            (λ b.
              ReserveOutcome (pool.reserves k)
                ((set_borrowing_flags assets true (enable asset pool)).reserves k) none
                (if (if b then true else includes assets k)
                  then true
                  else get_borrowing_enabled ((pool.reserves k).configuration)))
            (sym here) (flag_stays (includes assets k) first later)
      | inr there ↦
          subst
            (λ b.
              ReserveOutcome (pool.reserves k)
                ((set_borrowing_flags assets true (enable asset pool)).reserves k) none
                (if (if b then true else includes assets k)
                  then true
                  else get_borrowing_enabled ((pool.reserves k).configuration)))
            (sym there)
            (subst
              (λ r.
                ReserveOutcome r ((set_borrowing_flags assets true (enable asset pool)).reserves k)
                  none
                  (if includes assets k then true else get_borrowing_enabled (r.configuration)))
              (enable_other pool asset k there) later)
    ]

-- A batch, and then the flag.
pub then_flags :
    {a b c : ReserveData} (o : Option ConfigReserveInput) (included : Bool)
    → ReserveOutcome a b o (get_borrowing_enabled a.configuration)
    → ReserveOutcome b c none (if included then true else get_borrowing_enabled b.configuration)
    → ReserveOutcome a c o (if included then true else get_borrowing_enabled a.configuration)
then_flags o true h k = record {
  factor = k.factor ∙ h.factor;
  rate = k.rate ∙ h.rate;
  borrowing = k.borrowing;
  same = SameReserve-trans h.same k.same;
}
then_flags o false h k = record {
  factor = k.factor ∙ h.factor;
  rate = k.rate ∙ h.rate;
  borrowing = k.borrowing ∙ h.borrowing;
  same = SameReserve-trans h.same k.same;
}
