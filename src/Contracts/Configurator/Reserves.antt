-- ===== src/Contracts/Configurator/Reserves.antt =====
-- What a batch of configurations of reserves accepts, and what it records of every reserve.
use lender.Common.{
  ℕ, String, ◌≤◌, ◌≡◌, ◌↔◌, refl, ap, ◌∙◌, inl, inr, eq_iff, Bool, List, [], ◌∷◌, ◌++◌, All, arith,
}
use lender.Contracts.Configurator.{
  ConfigReserveInput, set_reserve_factor, config_reserve, execute_batch_config_reserve,
  only_pool_admin, only_risk_or_pool_admin, set_borrowing_flags, set_borrowing_flag_on_reserve,
  batch_config_reserve,
}
use lender.Contracts.Configurator.Batch.{only_pool_admin-ok, only_pool_admin-passed}
use lender.Contracts.NftConfiguration.{put_bits}
use lender.Contracts.Pool.{Pool, set_reserve_configuration, set_reserve_max_utilization_rate}
use lender.Failure.{ok, err, ◌>>◌}
use lender.Failure.Laws.{Result-cases, err≢ok, bind-ok, bind-passed, atomic-ok, atomic-passed}

-- A reserve factor fits its field.
abbrev pub FactorFits : ConfigReserveInput → Type 0
FactorFits input = input.reserve_factor ≤ 65535

-- The reserve after a round.
abbrev pub configured_reserve : ConfigReserveInput → Pool → Pool
configured_reserve input pool =
    set_reserve_max_utilization_rate input.asset input.max_utilization_rate (
      set_reserve_configuration input.asset
        (put_bits ((pool.reserves input.asset).configuration) 64 16 input.reserve_factor) pool)

set_reserve_factor-ok :
    (factor word : ℕ)
    → factor ≤ 65535
    → set_reserve_factor factor word ≡ (ok tt, put_bits word 64 16 factor)
unfolding set_reserve_factor
set_reserve_factor-ok factor word h = ground arith

set_reserve_factor-passed :
    (factor word : ℕ) → (set_reserve_factor factor word).0 ≡ ok tt → factor ≤ 65535
unfolding set_reserve_factor
set_reserve_factor-passed factor word h = ground arith

config_reserve-ok :
    (input : ConfigReserveInput) (pool : Pool)
    → FactorFits input
    → config_reserve input pool ≡ (ok tt, configured_reserve input pool)
unfolding config_reserve
config_reserve-ok input pool fits =
    let e =
      set_reserve_factor-ok input.reserve_factor ((pool.reserves input.asset).configuration) fits in
    rw (e, config_reserve)
      (ap
        (λ r. (
          ok tt,
          set_reserve_max_utilization_rate input.asset input.max_utilization_rate
              (set_reserve_configuration input.asset (r.1) pool),
        ))
        e)

config_reserve-passed :
    (input : ConfigReserveInput) (pool : Pool)
    → (config_reserve input pool).0 ≡ ok tt
    → FactorFits input
unfolding config_reserve
config_reserve-passed input pool h =
    elim (Result-cases
      ((set_reserve_factor input.reserve_factor ((pool.reserves input.asset).configuration)).0)) [
        | inl (a, e) ↦ set_reserve_factor-passed input.reserve_factor _ e
        | inr (e, eq) ↦ absurd (err≢ok (rw (eq, config_reserve) at h))
      ]

-- The pool after a batch that is accepted.
unfoldable pub configured_reserves : List ConfigReserveInput → Pool → Pool
configured_reserves [] pool = pool
configured_reserves (i ∷ is) pool = configured_reserves is (configured_reserve i pool)

pub configured_reserves-append :
    (xs ys : List ConfigReserveInput) (pool : Pool)
    → configured_reserves (xs ++ ys) pool ≡ configured_reserves ys (configured_reserves xs pool)
unfolding configured_reserves
configured_reserves-append [] ys pool = refl
configured_reserves-append (x ∷ xs) ys pool =
    configured_reserves-append xs ys (configured_reserve x pool)

pub configured_reserves_pool_admin :
    (inputs : List ConfigReserveInput) (pool : Pool)
    → (configured_reserves inputs pool).pool_admin ≡ pool.pool_admin
unfolding configured_reserves
configured_reserves_pool_admin [] pool = refl
configured_reserves_pool_admin (i ∷ is) pool =
    configured_reserves_pool_admin is (configured_reserve i pool)

execute_batch_config_reserve-ok :
    (inputs : List ConfigReserveInput) (pool : Pool)
    → All FactorFits inputs
    → execute_batch_config_reserve inputs pool ≡ (ok tt, configured_reserves inputs pool)
unfolding execute_batch_config_reserve configured_reserves
execute_batch_config_reserve-ok [] pool h = refl
execute_batch_config_reserve-ok (i ∷ is) pool (h, hs) =
    ap (λ r. elim (r.0) [ ok _ ↦ execute_batch_config_reserve is (r.1) | err e ↦ (err e, r.1) ])
      (config_reserve-ok i pool h)
    ∙ execute_batch_config_reserve-ok is (configured_reserve i pool) hs

execute_batch_config_reserve-passed :
    (inputs : List ConfigReserveInput) (pool : Pool)
    → (execute_batch_config_reserve inputs pool).0 ≡ ok tt
    → All FactorFits inputs
unfolding execute_batch_config_reserve
execute_batch_config_reserve-passed [] pool h = tt
execute_batch_config_reserve-passed (i ∷ is) pool h =
    elim (Result-cases ((config_reserve i pool).0)) [
      | inl (a, e) ↦ (
        config_reserve-passed i pool e,
        execute_batch_config_reserve-passed is _ (rw (e, execute_batch_config_reserve) at h),
      )
      | inr (e, eq) ↦ absurd (err≢ok (rw (eq, execute_batch_config_reserve) at h))
    ]

pub batch_config_reserve-ok :
    (sender : String) (inputs : List ConfigReserveInput) (pool : Pool)
    → pool.pool_admin ≡ sender
    → All FactorFits inputs
    → batch_config_reserve sender inputs pool ≡ (ok tt, configured_reserves inputs pool)
unfolding batch_config_reserve
batch_config_reserve-ok sender inputs pool admin all =
    atomic-ok (only_pool_admin sender >> execute_batch_config_reserve inputs) (
      bind-ok (only_pool_admin sender) (λ _. execute_batch_config_reserve inputs)
        (only_pool_admin-ok sender pool admin)
      ∙ execute_batch_config_reserve-ok inputs pool all)

-- A batch of reserves succeeds exactly where its sender is the pool admin and every reserve factor
-- is at most 65535.
pub batch_config_reserve_accepts :
    (sender : String) (inputs : List ConfigReserveInput) (pool : Pool)
    → ((batch_config_reserve sender inputs pool).0 ≡ ok tt)
      ↔ ((pool.pool_admin ≡ sender) × All FactorFits inputs)
unfolding batch_config_reserve
batch_config_reserve_accepts sender inputs pool = (
  λ h.
      let (a, asked, executed) =
        bind-passed (only_pool_admin sender) (λ _. execute_batch_config_reserve inputs) pool
          (atomic-passed _ pool h) in
      (
        only_pool_admin-passed sender pool (ap (λ r. r.0) asked),
        execute_batch_config_reserve-passed inputs _ executed,
      ),
  λ (admin, all). ap (λ r. r.0) (batch_config_reserve-ok sender inputs pool admin all),
)

pub set_borrowing_flag_on_reserve-ok :
    (sender : String) (assets : List String) (flag : Bool) (pool : Pool)
    → pool.pool_admin ≡ sender
    → set_borrowing_flag_on_reserve sender assets flag pool
      ≡ (ok tt, set_borrowing_flags assets flag pool)
unfolding set_borrowing_flag_on_reserve
set_borrowing_flag_on_reserve-ok sender assets flag pool admin =
    atomic-ok (only_risk_or_pool_admin sender >> λ p. (ok tt, set_borrowing_flags assets flag p)) (
      bind-ok (only_risk_or_pool_admin sender) (λ _ p. (ok tt, set_borrowing_flags assets flag p))
        asked)
  where
    asked : only_risk_or_pool_admin sender pool ≡ (ok tt, pool)
    asked = ground (arith, eq_iff pool.pool_admin sender, eq_iff pool.risk_admin sender)
