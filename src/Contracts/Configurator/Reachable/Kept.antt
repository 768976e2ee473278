-- ===== src/Contracts/Configurator/Reachable/Kept.antt =====
-- What each operation of the configurator keeps of a pool that is good.
use mathlib.Core.Path.{subst}
use lender.Common.{
  ℕ, String, Bool, true, false, ◌≤◌, ◌≡◌, refl, sym, inl, inr, Bool-cases, List, [], ◌∷◌, ◌<◌, ◌^◌,
  arith,
}
use lender.Contracts.Configurator.{ConfigNftInput, ConfigReserveInput, set_borrowing_flags}
use lender.Contracts.Configurator.Acceptance.{configured}
use lender.Contracts.Configurator.Batch.{AllAcceptable, configured_all, configured_all-NftsOnly}
use lender.Contracts.Configurator.Reachable.Words.{SafeWord, ReservesSmall, configured_all-NftsSafe}
use lender.Contracts.Configurator.Reserves.{configured_reserve, configured_reserves}
use lender.Contracts.Checked.{sub}
use lender.Contracts.Pool.{Pool, set_pause, set_paused_time, differs}
use lender.Failure.Laws.{Result-cases}

pub record IsGood (pool : Pool) : Type 0 where
  pub nfts : (k : String) → SafeWord ((pool.nfts k).configuration)
  pub reserves : ReservesSmall pool

-- The roles, and the time, which only goes on.
pub record SameRoles (before after : Pool) : Type 0 where
  pub pool_admin : after.pool_admin ≡ before.pool_admin
  pub emergency_admin : after.emergency_admin ≡ before.emergency_admin
  pub risk_admin : after.risk_admin ≡ before.risk_admin
  pub later : before.block_timestamp ≤ after.block_timestamp

-- A pool that differs in nothing but its reserves.
pub record ReservesOnly (before after : Pool) : Type 0 where
  pub nfts : (k : String) → after.nfts k ≡ before.nfts k
  pub block_timestamp : after.block_timestamp ≡ before.block_timestamp
  pub pool_admin : after.pool_admin ≡ before.pool_admin
  pub emergency_admin : after.emergency_admin ≡ before.emergency_admin
  pub risk_admin : after.risk_admin ≡ before.risk_admin

same_pool : (pool : Pool) → ReservesOnly pool pool
same_pool pool = record {
  nfts = λ k. refl;
  block_timestamp = refl;
  pool_admin = refl;
  emergency_admin = refl;
  risk_admin = refl;
}

pub configured_reserves-ReservesOnly :
    (inputs : List ConfigReserveInput) (pool : Pool)
    → ReservesOnly pool (configured_reserves inputs pool)
unfolding configured_reserves
configured_reserves-ReservesOnly [] pool = same_pool pool
configured_reserves-ReservesOnly (i ∷ is) pool =
    let rest = configured_reserves-ReservesOnly is (configured_reserve i pool) in
    record {
      nfts = rest.nfts;
      block_timestamp = rest.block_timestamp;
      pool_admin = rest.pool_admin;
      emergency_admin = rest.emergency_admin;
      risk_admin = rest.risk_admin;
    }

pub set_borrowing_flags-ReservesOnly :
    (assets : List String) (flag : Bool) (pool : Pool)
    → ReservesOnly pool (set_borrowing_flags assets flag pool)
unfolding set_borrowing_flags
set_borrowing_flags-ReservesOnly [] flag pool = same_pool pool
set_borrowing_flags-ReservesOnly (asset ∷ assets) flag pool =
    let rest = set_borrowing_flags-ReservesOnly assets flag _ in
    record {
      nfts = rest.nfts;
      block_timestamp = rest.block_timestamp;
      pool_admin = rest.pool_admin;
      emergency_admin = rest.emergency_admin;
      risk_admin = rest.risk_admin;
    }

-- A step keeps what is good, and the roles.
abbrev pub Keeps : Pool → Pool → Type 0
Keeps before after = IsGood after × SameRoles before after

pub reserves_only :
    (before after : Pool)
    → ReservesOnly before after
    → ReservesSmall after
    → IsGood before
    → Keeps before after
reserves_only before after o small good = (
  record {
    nfts = λ k. subst (λ n. SafeWord n.configuration) (sym (o.nfts k)) (good.nfts k);
    reserves = small;
  },
  record {
    pool_admin = o.pool_admin;
    emergency_admin = o.emergency_admin;
    risk_admin = o.risk_admin;
    later = omega (arith, o.block_timestamp);
  },
)

configured_all_time :
    (inputs : List ConfigNftInput) (pool : Pool)
    → (configured_all inputs pool).block_timestamp ≡ pool.block_timestamp
unfolding configured_all
configured_all_time [] pool = refl
configured_all_time (i ∷ is) pool = configured_all_time is (configured i pool)

pub configured_all-Keeps :
    (inputs : List ConfigNftInput) (pool : Pool)
    → AllAcceptable inputs
    → IsGood pool
    → Keeps pool (configured_all inputs pool)
configured_all-Keeps inputs pool all good =
    let only = configured_all-NftsOnly inputs pool in
    let time = configured_all_time inputs pool in
    (
      record {
        nfts = configured_all-NftsSafe inputs pool all good.nfts;
        reserves =
            λ k. subst (λ r. r.configuration < 2 ^ 80) (sym (only.reserves k)) (good.reserves k);
      },
      record {
        pool_admin = only.pool_admin;
        emergency_admin = only.emergency_admin;
        risk_admin = only.risk_admin;
        later = omega (arith, time);
      },
    )

-- A pool that differs in nothing but its pause.
paused-Keeps :
    (pool : Pool) (paused : Bool) (start duration : ℕ)
    → IsGood pool
    → Keeps pool (record pool {
      is_paused = paused;
      pause_start_time = start;
      pause_duration_time = duration;
    })
paused-Keeps pool paused start duration good = (
  record { nfts = good.nfts; reserves = good.reserves },
  record { pool_admin = refl; emergency_admin = refl; risk_admin = refl; later = omega arith },
)

pub set_paused_time-Keeps :
    (start duration : ℕ) (pool : Pool)
    → IsGood pool
    → Keeps pool (set_paused_time start duration pool)
set_paused_time-Keeps start duration pool = paused-Keeps pool pool.is_paused start duration

pub set_pause-Keeps : (val : Bool) (pool : Pool) → IsGood pool → Keeps pool ((set_pause val pool).1)
unfolding set_pause
set_pause-Keeps true pool good = elim (Bool-cases (differs pool.is_paused true)) [
  | inl changes ↦
      rw changes (paused-Keeps pool true pool.block_timestamp pool.pause_duration_time good)
  | inr same ↦
      rw same (paused-Keeps pool pool.is_paused pool.pause_start_time pool.pause_duration_time good)
]
set_pause-Keeps false pool good = elim (Bool-cases (differs pool.is_paused false)) [
  | inl changes ↦ elim (Result-cases (sub pool.block_timestamp pool.pause_start_time)) [
    | inl (duration, e) ↦
        rw (changes, e) (paused-Keeps pool false pool.pause_start_time duration good)
    | inr (failure, e) ↦
        rw (changes, e)
          (paused-Keeps pool false pool.pause_start_time pool.pause_duration_time good)
  ]
  | inr same ↦
      rw same (paused-Keeps pool pool.is_paused pool.pause_start_time pool.pause_duration_time good)
]
