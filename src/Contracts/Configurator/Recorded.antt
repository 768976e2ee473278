-- ===== src/Contracts/Configurator/Recorded.antt =====
-- What a batch of configurations records of every reserve.
use mathlib.Core.Path.{subst}
use lender.Common.{
  ℕ, String, ◌≤◌, ◌≡◌, refl, sym, ap, ◌∙◌, inl, inr, ◌==◌, eq_iff, false, if◌then◌else◌, Bool,
  Bool-cases, eqb, not, List, [], ◌∷◌, All, arith, Option, none, some,
}
use lender.Contracts.Configurator.{ConfigReserveInput, get_reserve_factor, get_borrowing_enabled}
use lender.Contracts.Configurator.Acceptance.{equals_itself}
use lender.Contracts.Configurator.Reserves.{FactorFits, configured_reserve, configured_reserves}
use lender.Contracts.NftConfiguration.{put_bits, get_bits}
use lender.Contracts.Pool.{Pool, ReserveData}

-- The last input for a reserve, the one that counts.
pub last_reserve_for : String → List ConfigReserveInput → Option ConfigReserveInput
last_reserve_for k [] = none
last_reserve_for k (i ∷ is) = elim (last_reserve_for k is) [
  | some j ↦ some j
  | none ↦ if i.asset == k then some i else none
]

-- What no configuration changes in the record of a reserve.
pub record SameReserve (before after : ReserveData) : Type 0 where
  pub b_token_address : after.b_token_address ≡ before.b_token_address
  pub debt_token_address : after.debt_token_address ≡ before.debt_token_address
  pub interest_rate_address : after.interest_rate_address ≡ before.interest_rate_address
  pub current_liquidity_rate : after.current_liquidity_rate ≡ before.current_liquidity_rate
  pub id : after.id ≡ before.id

pub SameReserve-refl : (r : ReserveData) → SameReserve r r
SameReserve-refl r = record {
  b_token_address = refl;
  debt_token_address = refl;
  interest_rate_address = refl;
  current_liquidity_rate = refl;
  id = refl;
}

pub SameReserve-trans : {a b c : ReserveData} → SameReserve a b → SameReserve b c → SameReserve a c
SameReserve-trans h k = record {
  b_token_address = k.b_token_address ∙ h.b_token_address;
  debt_token_address = k.debt_token_address ∙ h.debt_token_address;
  interest_rate_address = k.interest_rate_address ∙ h.interest_rate_address;
  current_liquidity_rate = k.current_liquidity_rate ∙ h.current_liquidity_rate;
  id = k.id ∙ h.id;
}

-- The two values that a batch sets, by the input for the reserve if there is one.
abbrev pub factor_after : ReserveData → Option ConfigReserveInput → ℕ
factor_after before none = get_reserve_factor before.configuration
factor_after before (some i) = i.reserve_factor

abbrev pub rate_after : ReserveData → Option ConfigReserveInput → ℕ
rate_after before none = before.max_utilization_rate
rate_after before (some i) = i.max_utilization_rate

-- A reserve after a batch and a setting of the flag: the factor and the rate of the input for it, or
-- as before, and the flag.
pub record ReserveOutcome (before after : ReserveData) (input : Option ConfigReserveInput)
    (enabled : Bool) : Type 0 where
  pub factor : get_reserve_factor after.configuration ≡ factor_after before input
  pub rate : after.max_utilization_rate ≡ rate_after before input
  pub borrowing : get_borrowing_enabled after.configuration ≡ enabled
  pub same : SameReserve before after

put_factor :
    (word factor : ℕ)
    → factor ≤ 65535
    → (get_bits (put_bits word 64 16 factor) 64 16 ≡ factor)
      × (get_bits (put_bits word 64 16 factor) 58 1 ≡ get_bits word 58 1)
put_factor word factor h = (omega arith, omega arith)

module _ (i : ConfigReserveInput) (pool : Pool) where
  configured_reserve_other :
      (k : String)
      → (i.asset == k) ≡ false
      → (configured_reserve i pool).reserves k ≡ pool.reserves k
  configured_reserve_other k h = rw h refl

  configured_reserve_at :
      (configured_reserve i pool).reserves i.asset ≡ record (pool.reserves i.asset) {
        configuration = put_bits ((pool.reserves i.asset).configuration) 64 16 i.reserve_factor;
        max_utilization_rate = i.max_utilization_rate;
      }
  configured_reserve_at = rw (equals_itself i.asset) refl

  configured_reserve-Outcome :
      FactorFits i
      → ReserveOutcome
          (pool.reserves i.asset)
          ((configured_reserve i pool).reserves i.asset)
          (some i)
          (get_borrowing_enabled ((pool.reserves i.asset).configuration))
  unfolding get_reserve_factor get_borrowing_enabled
  configured_reserve-Outcome fits = rw configured_reserve_at record {
    factor = (put_factor ((pool.reserves i.asset).configuration) i.reserve_factor fits).0;
    rate = refl;
    borrowing =
        ap (λ b. not (eqb b 0))
          ((put_factor ((pool.reserves i.asset).configuration) i.reserve_factor fits).1);
    same = record {
      b_token_address = refl;
      debt_token_address = refl;
      interest_rate_address = refl;
      current_liquidity_rate = refl;
      id = refl;
    };
  }

  configured_reserve_step :
      (k : String)
      → FactorFits i
      → ReserveOutcome
          (pool.reserves k)
          ((configured_reserve i pool).reserves k)
          (if i.asset == k then some i else none)
          (get_borrowing_enabled ((pool.reserves k).configuration))
  configured_reserve_step k fits = elim (Bool-cases (i.asset == k)) [
    | inl here ↦
        subst
          (λ o.
            ReserveOutcome (pool.reserves k) ((configured_reserve i pool).reserves k) o
              (get_borrowing_enabled ((pool.reserves k).configuration)))
          (sym (ap (λ b. if b then some i else none) here))
          (subst
            (λ j.
              ReserveOutcome (pool.reserves j) ((configured_reserve i pool).reserves j) (some i)
                (get_borrowing_enabled ((pool.reserves j).configuration)))
            ((eq_iff i.asset k).0 here) (configured_reserve-Outcome fits))
    | inr there ↦
        rw (configured_reserve_other k there, there)
          record {
            factor = refl;
            rate = refl;
            borrowing = refl;
            same = SameReserve-refl (pool.reserves k);
          }
  ]

abbrev later_of : Option ConfigReserveInput → Option ConfigReserveInput → Option ConfigReserveInput
later_of o (some j) = some j
later_of o none = o

ReserveOutcome-trans :
    {a b c : ReserveData} (o p : Option ConfigReserveInput)
    → ReserveOutcome a b o (get_borrowing_enabled a.configuration)
    → ReserveOutcome b c p (get_borrowing_enabled b.configuration)
    → ReserveOutcome a c (later_of o p) (get_borrowing_enabled a.configuration)
ReserveOutcome-trans o none h k = record {
  factor = k.factor ∙ h.factor;
  rate = k.rate ∙ h.rate;
  borrowing = k.borrowing ∙ h.borrowing;
  same = SameReserve-trans h.same k.same;
}
ReserveOutcome-trans o (some j) h k = record {
  factor = k.factor;
  rate = k.rate;
  borrowing = k.borrowing ∙ h.borrowing;
  same = SameReserve-trans h.same k.same;
}

pub configured_reserves-Outcome :
    (inputs : List ConfigReserveInput) (pool : Pool) (k : String)
    → All FactorFits inputs
    → ReserveOutcome
        (pool.reserves k)
        ((configured_reserves inputs pool).reserves k)
        (last_reserve_for k inputs)
        (get_borrowing_enabled ((pool.reserves k).configuration))
unfolding configured_reserves last_reserve_for
configured_reserves-Outcome [] pool k h = record {
  factor = refl;
  rate = refl;
  borrowing = refl;
  same = SameReserve-refl (pool.reserves k);
}
configured_reserves-Outcome (i ∷ is) pool k (h, hs) =
    subst
      (λ o.
        ReserveOutcome (pool.reserves k) ((configured_reserves (i ∷ is) pool).reserves k) o
          (get_borrowing_enabled ((pool.reserves k).configuration)))
      (later_last (last_reserve_for k is))
      (ReserveOutcome-trans (if i.asset == k then some i else none) (last_reserve_for k is)
        (configured_reserve_step i pool k h)
        (configured_reserves-Outcome is (configured_reserve i pool) k hs))
  where
    later_last :
        (o : Option ConfigReserveInput)
        → later_of (if i.asset == k then some i else none) o
          ≡ elim o [ some j ↦ some j | none ↦ if i.asset == k then some i else none ]
    later_last none = refl
    later_last (some j) = refl
