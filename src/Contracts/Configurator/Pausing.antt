-- ===== src/Contracts/Configurator/Pausing.antt =====
-- contracts/protocol/LendPool.sol, `setPause`: when a call of it by the configurator succeeds.
use lender.Common.{String, Bool, true, false, ◌≡◌, ap, ◌≤◌, eq_iff, arith}
use lender.Contracts.Checked.{sub}
use lender.Contracts.Configurator.{set_pool_pause, only_emergency_admin}
use lender.Contracts.Pool.{Pool, set_pause}
use lender.Failure.{ok, err, atomic}
use lender.Failure.Laws.{bind-ok}

-- A pause ends only after it has begun.
abbrev pub CanSet : Bool → Pool → Type 0
CanSet val pool = pool.is_paused ≡ true → val ≡ false → pool.pause_start_time ≤ pool.block_timestamp

pub set_pause-ok : (val : Bool) (pool : Pool) → CanSet val pool → (set_pause val pool).0 ≡ ok tt
unfolding set_pause sub
set_pause-ok val pool h = ground (arith, h)

pub set_pause-passed : (val : Bool) (pool : Pool) → (set_pause val pool).0 ≡ ok tt → CanSet val pool
unfolding set_pause sub
set_pause-passed val pool h paused resumes = ground arith

pub set_pause-is_paused :
    (val : Bool) (pool : Pool)
    → (set_pause val pool).0 ≡ ok tt
    → ((set_pause val pool).1).is_paused ≡ val
unfolding set_pause sub
set_pause-is_paused val pool h = ground arith

pub emergency_admin_asked :
    (sender : String) (pool : Pool)
    → pool.emergency_admin ≡ sender
    → only_emergency_admin sender pool ≡ (ok tt, pool)
emergency_admin_asked sender pool e = ground (arith, eq_iff pool.emergency_admin sender)

-- The emergency admin's transaction is the call, taken back where it fails.
pub set_pool_pause-runs :
    (sender : String) (val : Bool) (pool : Pool)
    → pool.emergency_admin ≡ sender
    → set_pool_pause sender val pool ≡ atomic (set_pause val) pool
unfolding set_pool_pause atomic
set_pool_pause-runs sender val pool e =
    ap (λ r. elim (r.0) [ ok a ↦ (ok a, r.1) | err failure ↦ (err failure, pool) ])
      (bind-ok (only_emergency_admin sender) (λ _. set_pause val)
        (emergency_admin_asked sender pool e))
