-- ===== src/Contracts/Configurator/Batch.antt =====
-- What a batch of configurations of NFTs accepts, and what it records of every asset.
use mathlib.Core.Path.{subst}
use lender.Common.{
  ◌++◌, arith, String, ◌≡◌, ◌↔◌, refl, sym, ap, ◌∙◌, inl, inr, ◌==◌, eq_iff, true, false,
  if◌then◌else◌, Bool-cases, Option-cases, Option, none, some, List, [], ◌∷◌, All,
}
use lender.Contracts.Configurator.{
  ConfigNftInput, config_nft, execute_batch_config_nft, only_pool_admin, batch_config_nft,
}
use lender.Contracts.Configurator.Acceptance.{
  Acceptable, Kept, Configured, configured, config_nft-ok, config_nft-passed, write_nft_other,
  configured-Configured, Kept-trans,
}
use lender.Contracts.Pool.{Pool, NftData}
use lender.Failure.{ok, err, ◌>>◌}
use lender.Failure.Laws.{Result-cases, err≢ok, bind-ok, bind-passed, atomic-ok, atomic-passed}

abbrev pub AllAcceptable : List ConfigNftInput → Type 0
AllAcceptable = All Acceptable

-- The last input for an asset, the one that counts.
pub last_for : String → List ConfigNftInput → Option ConfigNftInput
last_for k [] = none
last_for k (i ∷ is) = elim (last_for k is) [
  | some j ↦ some j
  | none ↦ if i.asset == k then some i else none
]

-- What the record of an asset is after a batch: configured by the last input for it, and otherwise
-- as it was.
abbrev pub Outcome : NftData → NftData → Option ConfigNftInput → Type 0
Outcome before after none = after ≡ before
Outcome before after (some i) = Configured i before after

-- The pool after a batch that is accepted.
unfoldable pub configured_all : List ConfigNftInput → Pool → Pool
configured_all [] pool = pool
configured_all (i ∷ is) pool = configured_all is (configured i pool)

pub configured_all-append :
    (xs ys : List ConfigNftInput) (pool : Pool)
    → configured_all (xs ++ ys) pool ≡ configured_all ys (configured_all xs pool)
unfolding configured_all
configured_all-append [] ys pool = refl
configured_all-append (x ∷ xs) ys pool = configured_all-append xs ys (configured x pool)

pub execute_batch_config_nft-ok :
    (inputs : List ConfigNftInput) (pool : Pool)
    → AllAcceptable inputs
    → execute_batch_config_nft inputs pool ≡ (ok tt, configured_all inputs pool)
unfolding execute_batch_config_nft configured_all
execute_batch_config_nft-ok [] pool h = refl
execute_batch_config_nft-ok (i ∷ is) pool (h, hs) =
    ap (λ r. elim (r.0) [ ok _ ↦ execute_batch_config_nft is (r.1) | err e ↦ (err e, r.1) ])
      (config_nft-ok i pool h)
    ∙ execute_batch_config_nft-ok is (configured i pool) hs

pub execute_batch_config_nft-passed :
    (inputs : List ConfigNftInput) (pool : Pool)
    → (execute_batch_config_nft inputs pool).0 ≡ ok tt
    → AllAcceptable inputs
unfolding execute_batch_config_nft
execute_batch_config_nft-passed [] pool h = tt
execute_batch_config_nft-passed (i ∷ is) pool h = elim (Result-cases ((config_nft i pool).0)) [
  | inl (a, e) ↦ (
    config_nft-passed i pool e,
    execute_batch_config_nft-passed is _ (rw (e, execute_batch_config_nft) at h),
  )
  | inr (e, eq) ↦ absurd (err≢ok (rw (eq, execute_batch_config_nft) at h))
]

same_asset : (i : ConfigNftInput) (k : String) → (i.asset == k) ≡ true → i.asset ≡ k
same_asset i k h = (eq_iff i.asset k).0 h

module _ (i : ConfigNftInput) (pool : Pool) (h : Acceptable i) (k : String) where
  configured_here : (i.asset == k) ≡ true → Configured i (pool.nfts k) ((configured i pool).nfts k)
  configured_here e =
      subst (λ j. Configured i (pool.nfts j) ((configured i pool).nfts j)) (same_asset i k e)
        (configured-Configured i pool h.fits)

  configured_elsewhere : (i.asset == k) ≡ false → (configured i pool).nfts k ≡ pool.nfts k
  configured_elsewhere e = write_nft_other i _ pool k e

  configured-Kept : Kept (pool.nfts k) ((configured i pool).nfts k)
  configured-Kept = elim (Bool-cases (i.asset == k)) [
    | inl e ↦ (configured_here e).kept
    | inr e ↦
        rw (configured_elsewhere e)
          record { active = refl; frozen = refl; b_nft_address = refl; id = refl }
  ]

-- What is known of a later record in terms of the one before a round.
Outcome-after :
    {before middle after : NftData} (i : ConfigNftInput)
    → Kept before middle
    → Configured i middle after
    → Configured i before after
Outcome-after i kept c = record {
  holds = c.holds;
  max_supply = c.max_supply;
  max_token_id = c.max_token_id;
  max_collateral_cap = c.max_collateral_cap;
  kept = Kept-trans kept c.kept;
}

pub configured_all-Outcome :
    (inputs : List ConfigNftInput) (pool : Pool) (k : String)
    → AllAcceptable inputs
    → Outcome (pool.nfts k) ((configured_all inputs pool).nfts k) (last_for k inputs)
unfolding configured_all last_for
configured_all-Outcome [] pool k h = refl
configured_all-Outcome (i ∷ is) pool k (h, hs) =
    let later = configured_all-Outcome is (configured i pool) k hs in
    elim (Option-cases (last_for k is)) [
      | inl e ↦ elim (Bool-cases (i.asset == k)) [
        | inl here ↦
            rw (e, here)
              (subst (λ d. Configured i (pool.nfts k) d) (sym (rw e at later))
                (configured_here i pool h k here))
        | inr there ↦ rw (e, there) (rw e at later ∙ configured_elsewhere i pool h k there)
      ]
      | inr (j, e) ↦ rw e (Outcome-after j (configured-Kept i pool h k) (rw e at later))
    ]

-- What a batch never touches: the reserves, the pause and the roles.
pub record NftsOnly (before after : Pool) : Type 0 where
  pub reserves : (k : String) → after.reserves k ≡ before.reserves k
  pub is_paused : after.is_paused ≡ before.is_paused
  pub pause_start_time : after.pause_start_time ≡ before.pause_start_time
  pub pause_duration_time : after.pause_duration_time ≡ before.pause_duration_time
  pub pool_admin : after.pool_admin ≡ before.pool_admin
  pub emergency_admin : after.emergency_admin ≡ before.emergency_admin
  pub risk_admin : after.risk_admin ≡ before.risk_admin

pub configured_all-NftsOnly :
    (inputs : List ConfigNftInput) (pool : Pool) → NftsOnly pool (configured_all inputs pool)
unfolding configured_all
configured_all-NftsOnly [] pool = record {
  reserves = λ k. refl;
  is_paused = refl;
  pause_start_time = refl;
  pause_duration_time = refl;
  pool_admin = refl;
  emergency_admin = refl;
  risk_admin = refl;
}
configured_all-NftsOnly (i ∷ is) pool =
    let rest = configured_all-NftsOnly is (configured i pool) in
    record {
      reserves = rest.reserves;
      is_paused = rest.is_paused;
      pause_start_time = rest.pause_start_time;
      pause_duration_time = rest.pause_duration_time;
      pool_admin = rest.pool_admin;
      emergency_admin = rest.emergency_admin;
      risk_admin = rest.risk_admin;
    }

pub only_pool_admin-ok :
    (sender : String) (pool : Pool)
    → pool.pool_admin ≡ sender
    → only_pool_admin sender pool ≡ (ok tt, pool)
only_pool_admin-ok sender pool e = ground (arith, eq_iff pool.pool_admin sender)

pub only_pool_admin-passed :
    (sender : String) (pool : Pool)
    → (only_pool_admin sender pool).0 ≡ ok tt
    → pool.pool_admin ≡ sender
only_pool_admin-passed sender pool h = ground (arith, eq_iff pool.pool_admin sender)

pub batch_config_nft-ok :
    (sender : String) (inputs : List ConfigNftInput) (pool : Pool)
    → pool.pool_admin ≡ sender
    → AllAcceptable inputs
    → batch_config_nft sender inputs pool ≡ (ok tt, configured_all inputs pool)
unfolding batch_config_nft
batch_config_nft-ok sender inputs pool admin all =
    atomic-ok (only_pool_admin sender >> execute_batch_config_nft inputs) (
      bind-ok (only_pool_admin sender) (λ _. execute_batch_config_nft inputs)
        (only_pool_admin-ok sender pool admin)
      ∙ execute_batch_config_nft-ok inputs pool all)

pub configured_all_pool_admin :
    (inputs : List ConfigNftInput) (pool : Pool)
    → (configured_all inputs pool).pool_admin ≡ pool.pool_admin
configured_all_pool_admin inputs pool = (configured_all-NftsOnly inputs pool).pool_admin

-- A batch of acceptable inputs from the pool admin succeeds; then the record of every asset is
-- configured by the last input for that asset, or as before where there is none, and the reserves,
-- the pause and the roles are as before.
pub batch_config_nft_records :
    (sender : String) (inputs : List ConfigNftInput) (pool : Pool) (k : String)
    → pool.pool_admin ≡ sender
    → AllAcceptable inputs
    → ((batch_config_nft sender inputs pool).0 ≡ ok tt)
      × Outcome (pool.nfts k) ((batch_config_nft sender inputs pool).1.nfts k) (last_for k inputs)
      × NftsOnly pool ((batch_config_nft sender inputs pool).1)
batch_config_nft_records sender inputs pool k admin all =
    rw (batch_config_nft-ok sender inputs pool admin all)
      (refl, configured_all-Outcome inputs pool k all, configured_all-NftsOnly inputs pool)

-- A batch succeeds exactly where its sender is the pool admin and every input of it is acceptable:
-- its values fit their fields, the loan to value is within the threshold, and the bonus is at most
-- 100 %, or 0 where there is no threshold.
pub batch_config_nft_accepts :
    (sender : String) (inputs : List ConfigNftInput) (pool : Pool)
    → ((batch_config_nft sender inputs pool).0 ≡ ok tt)
      ↔ ((pool.pool_admin ≡ sender) × AllAcceptable inputs)
unfolding batch_config_nft
batch_config_nft_accepts sender inputs pool = (
  λ h.
      let (a, asked, executed) =
        bind-passed (only_pool_admin sender) (λ _. execute_batch_config_nft inputs) pool
          (atomic-passed _ pool h) in
      (
        only_pool_admin-passed sender pool (ap (λ r. r.0) asked),
        execute_batch_config_nft-passed inputs _ executed,
      ),
  λ (admin, all). ap (λ r. r.0) (batch_config_nft-ok sender inputs pool admin all),
)
