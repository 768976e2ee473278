-- ===== src/Contracts/Configurator/Reachable/Set.antt =====
-- What the transactions for lists of assets keep of a pool that is good.
use mathlib.Core.Path.{subst}
use lender.Common.{
  ℕ, ◌^◌, String, Bool, true, false, ◌<◌, ◌≡◌, refl, sym, ap, ◌∙◌, inl, inr, ◌==◌, Bool-cases, List,
  [], ◌∷◌, arith,
}
use lender.Contracts.Configurator.{require}
use lender.Contracts.Configurator.Reachable.Kept.{IsGood, SameRoles, Keeps}
use lender.Contracts.Configurator.Reachable.Words.{SafeWord}
use lender.Contracts.Configurator.Settings.{for_each, on_nft_word, on_reserve_word}
use lender.Contracts.Pool.{Pool, set_nft_configuration, set_reserve_configuration}
use lender.Failure.{Action, ok, ◌>>◌}
use lender.Failure.Laws.{Result-cases, err≢ok, bind-ok, bind-passed}
use lender.Types.ProtocolError.{ProtocolError}

-- A call that succeeds in a good pool leaves a good pool and the roles.
abbrev pub Preserves : Action Pool (Unit {0}) → Type 0
Preserves f = (pool : Pool) → IsGood pool → (f pool).0 ≡ ok tt → Keeps pool ((f pool).1)

pub same_Keeps : (pool : Pool) → IsGood pool → Keeps pool pool
same_Keeps pool good = (
  good,
  record { pool_admin = refl; emergency_admin = refl; risk_admin = refl; later = omega arith },
)

pub SameRoles-trans : (a b c : Pool) → SameRoles a b → SameRoles b c → SameRoles a c
SameRoles-trans a b c first second = record {
  pool_admin = second.pool_admin ∙ first.pool_admin;
  emergency_admin = second.emergency_admin ∙ first.emergency_admin;
  risk_admin = second.risk_admin ∙ first.risk_admin;
  later = omega (arith, first.later, second.later);
}

pub bind-Preserves : (f g : Action Pool (Unit {0})) → Preserves f → Preserves g → Preserves (f >> g)
bind-Preserves f g pf pg pool good h =
    let (a, done, rest) = bind-passed f (λ _. g) pool h in
    let (good_f, first) = pf pool good (ap (λ r. r.0) done) in
    let (good_g, second) = pg _ good_f rest in
    subst (λ r. Keeps pool (r.1)) (sym (bind-ok f (λ _. g) done))
      (good_g, SameRoles-trans _ _ _ first second)

pub for_each-Preserves :
    (f : String → Action Pool (Unit {0})) (assets : List String)
    → ((asset : String) → Preserves (f asset))
    → Preserves (for_each f assets)
for_each-Preserves f [] p pool good h = same_Keeps pool good
for_each-Preserves f (asset ∷ assets) p pool good h =
    bind-Preserves (f asset) (for_each f assets) (p asset) (for_each-Preserves f assets p) pool good
      h

pub require-Preserves :
    (condition : Bool) (error : ProtocolError) → Preserves (require condition error)
require-Preserves true error pool good h = same_Keeps pool good
require-Preserves false error pool good h = absurd (err≢ok h)

-- A change of a word that keeps it safe.
abbrev pub Safe : Action ℕ (Unit {0}) → Type 0
Safe change = (word : ℕ) → SafeWord word → (change word).0 ≡ ok tt → SafeWord ((change word).1)

written-Keeps :
    (asset : String) (word : ℕ) (pool : Pool)
    → SafeWord word
    → IsGood pool
    → Keeps pool (set_nft_configuration asset word pool)
written-Keeps asset word pool safe good = (
  record {
    nfts = λ k. elim (Bool-cases (asset == k)) [ inl e ↦ rw e safe | inr e ↦ rw e (good.nfts k) ];
    reserves = good.reserves;
  },
  record { pool_admin = refl; emergency_admin = refl; risk_admin = refl; later = omega arith },
)

pub on_nft_word-Preserves :
    (change : Action ℕ (Unit {0})) (asset : String)
    → Safe change
    → Preserves (on_nft_word change asset)
on_nft_word-Preserves change asset safe pool good h =
    let word = (pool.nfts asset).configuration in
    elim (Result-cases ((change word).0)) [
      | inl (_, e) ↦
          rw (on_nft_word, e)
            (written-Keeps asset ((change word).1) pool (safe word (good.nfts asset) e) good)
      | inr (failure, e) ↦ absurd (err≢ok (rw (e, on_nft_word) at h))
    ]

abbrev pub Small : Action ℕ (Unit {0}) → Type 0
Small change = (word : ℕ) → word < 2 ^ 80 → (change word).0 ≡ ok tt → (change word).1 < 2 ^ 80

reserve_written-Keeps :
    (asset : String) (word : ℕ) (pool : Pool)
    → word < 2 ^ 80
    → IsGood pool
    → Keeps pool (set_reserve_configuration asset word pool)
reserve_written-Keeps asset word pool small good = (
  record {
    nfts = good.nfts;
    reserves =
        λ k. elim (Bool-cases (asset == k)) [ inl e ↦ rw e small | inr e ↦ rw e (good.reserves k) ];
  },
  record { pool_admin = refl; emergency_admin = refl; risk_admin = refl; later = omega arith },
)

pub on_reserve_word-Preserves :
    (change : Action ℕ (Unit {0})) (asset : String)
    → Small change
    → Preserves (on_reserve_word change asset)
on_reserve_word-Preserves change asset small pool good h =
    let word = (pool.reserves asset).configuration in
    elim (Result-cases ((change word).0)) [
      | inl (_, e) ↦
          rw (on_reserve_word, e)
            (reserve_written-Keeps asset ((change word).1) pool (small word (good.reserves asset) e)
              good)
      | inr (failure, e) ↦ absurd (err≢ok (rw (e, on_reserve_word) at h))
    ]
