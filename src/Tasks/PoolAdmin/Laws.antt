-- ===== src/Tasks/PoolAdmin/Laws.antt =====
-- What the administrators' tasks do to the pool.
use lender.Common.{
  String, ◌≡◌, ◌↔◌, refl, sym, ap, ◌∙◌, Bool, false, Bool-cases, inl, inr, some, ◌==◌,
}
use lender.Contracts.Configurator.{set_pool_pause}
use lender.Contracts.Configurator.Pausing.{
  CanSet, set_pause-ok, set_pause-passed, set_pause-is_paused, set_pool_pause-runs,
}
use lender.Contracts.Pool.{Pool, differs, set_pause}
use lender.Db.{DbEntry}
use lender.Deploy.{Node, contract_at, address_on_file-found, get_lend_pool_addresses_provider}
use lender.Failure.{Failure, Result, Action, ok, err, atomic, pure, ◌>>=◌}
use lender.Failure.Laws.{Result-cases, bind-ok, bind-err, atomic-ok, atomic-passed, atomic-refused}
use lender.Tasks.PoolAdmin.{AdminCalls, TextNumbers, want_pause, pause_unless_same, set_pause_task}
use lender.Types.ContractId.{
  ContractId, lend_pool, lend_pool_configurator, lend_pool_addresses_provider,
}

-- The calls run the contracts: the provider and the pool answer from the pool's state, and the
-- configurator runs its code.
pub record RunsPool {W : Type 0} (calls : AdminCalls W) : Type 0 where
  pub provider : String
  pub configurator : String
  pub pool : String
  pub configurator_given : (configurator == "") ≡ false
  pub pool_given : (pool == "") ≡ false
  pub pool_of : W → Pool
  pub asks_emergency_admin :
      (w : W) → calls.get_emergency_admin provider w ≡ (ok ((pool_of w).emergency_admin), w)
  pub asks_configurator :
      (w : W) → calls.get_lend_pool_configurator provider w ≡ (ok configurator, w)
  pub asks_pool : (w : W) → calls.get_lend_pool provider w ≡ (ok pool, w)
  pub asks_paused : (w : W) → calls.paused pool w ≡ (ok ((pool_of w).is_paused), w)
  pub pauses :
      (sender : String) (val : Bool) (w : W)
      → ((calls.set_pool_pause sender configurator val w).0
          ≡ (set_pool_pause sender val (pool_of w)).0)
        × (pool_of ((calls.set_pool_pause sender configurator val w).1)
            ≡ (set_pool_pause sender val (pool_of w)).1)

-- A call that changes nothing is a transaction that changes nothing.
set_pause_same :
    (val : Bool) (pool : Pool)
    → differs pool.is_paused val ≡ false
    → atomic (set_pause val) pool ≡ (ok tt, pool)
unfolding set_pause
set_pause_same val pool h = atomic-ok (set_pause val) (rw (set_pause, h) refl)

module _ {W : Type 0} (numbers : TextNumbers) (node : Node W) (calls : AdminCalls W)
    (runs : RunsPool calls) where
  given_contract :
      (address : String) (id : ContractId) (w : W)
      → (address == "") ≡ false
      → contract_at node address id w ≡ (ok address, w)
  unfolding contract_at
  given_contract address id w h = rw h refl

  module _ (want : Bool) (w : W) where
    task : Action W (Unit {0})
    task =
        pause_unless_same calls ((runs.pool_of w).emergency_admin) runs.configurator runs.pool want
          ((runs.pool_of w).is_paused)

    -- What a result of the configurator's code is for the task.
    abbrev Agrees : Result (Unit {0}) × Pool → Type 0
    Agrees r = ((task w).0 ≡ r.0) × (runs.pool_of ((task w).1) ≡ r.1)

    pauses_unless_same : Agrees (atomic (set_pause want) (runs.pool_of w))
    unfolding task
    pauses_unless_same = elim (Bool-cases (differs ((runs.pool_of w).is_paused) want)) [
      | inr same ↦ rw (same, set_pause_same want (runs.pool_of w) same) (refl, refl)
      | inl changes ↦
          let m = calls.set_pool_pause ((runs.pool_of w).emergency_admin) runs.configurator want in
          let k : Unit {0} → Action W (Unit {0}) =
            λ _. calls.paused runs.pool >>= λ _. pure {A = Unit {0}} tt in
          let (r0, p0) = runs.pauses ((runs.pool_of w).emergency_admin) want w in
          let code =
            set_pool_pause-runs ((runs.pool_of w).emergency_admin) want (runs.pool_of w) refl in
          let asked =
            bind-ok {B = Unit {0}} (calls.paused runs.pool) (λ _. pure tt)
              (runs.asks_paused ((m w).1)) in
          elim (Result-cases ((m w).0)) [
            | inl (a, e) ↦
                let whole = bind-ok m k (ap (λ x. (x, (m w).1)) e) ∙ asked in
                rw (changes, whole) (sym e ∙ r0 ∙ ap (λ x. x.0) code, p0 ∙ ap (λ x. x.1) code)
            | inr (failure, e) ↦
                let whole = bind-err m k (ap (λ x. (x, (m w).1)) e) in
                rw (changes, whole) (sym e ∙ r0 ∙ ap (λ x. x.0) code, p0 ∙ ap (λ x. x.1) code)
          ]
    ]

    -- What the transaction does to the pool, by its result.
    Agrees-outcome :
        Agrees (atomic (set_pause want) (runs.pool_of w))
        → (((task w).0 ≡ ok tt) ↔ CanSet want (runs.pool_of w))
          × ((task w).0 ≡ ok tt → runs.pool_of ((task w).1) ≡ (set_pause want (runs.pool_of w)).1)
          × ((task w).0 ≡ ok tt → (runs.pool_of ((task w).1)).is_paused ≡ want)
          × ((e : Failure) → (task w).0 ≡ err e → runs.pool_of ((task w).1) ≡ runs.pool_of w)
    Agrees-outcome (r, p) =
        let runs_ : ((task w).0 ≡ ok tt)
            → atomic (set_pause want) (runs.pool_of w)
              ≡ (ok tt, (set_pause want (runs.pool_of w)).1) =
          λ h. accepted (atomic-passed (set_pause want) (runs.pool_of w) (sym r ∙ h)) in
        (
          (
            λ h.
                set_pause-passed want (runs.pool_of w)
                  (atomic-passed (set_pause want) (runs.pool_of w) (sym r ∙ h)),
            λ can. r ∙ ap (λ x. x.0) (accepted (set_pause-ok want (runs.pool_of w) can)),
          ),
          λ h. p ∙ ap (λ x. x.1) (runs_ h),
          λ h.
              ap (λ x. x.is_paused) (p ∙ ap (λ x. x.1) (runs_ h))
              ∙ set_pause-is_paused want (runs.pool_of w)
                  (atomic-passed (set_pause want) (runs.pool_of w) (sym r ∙ h)),
          λ e h. p ∙ ap (λ x. x.1) (atomic-refused (set_pause want) (runs.pool_of w) (sym r ∙ h)),
        )
      where
        accepted :
            (set_pause want (runs.pool_of w)).0 ≡ ok tt
            → atomic (set_pause want) (runs.pool_of w)
              ≡ (ok tt, (set_pause want (runs.pool_of w)).1)
        accepted e =
            atomic-ok (set_pause want) (ap (λ x. (x, (set_pause want (runs.pool_of w)).1)) e)

  -- Where the addresses provider is on file and the calls run the contracts, the task that pauses
  -- the pool succeeds exactly where the wanted state does not end a pause that begins in the
  -- future. On success the pool is as one call of `setPause` with the wanted state leaves it, and
  -- is in that state; on failure it is as before.
  pub set_pause_task_lem :
      (pool state : String) (entry : DbEntry) (w : W)
      → node.lowdb.get "LendPoolAddressesProvider" w ≡ some entry
      → entry.address ≡ runs.provider
      → let run = set_pause_task numbers node calls pool state w in
        let want = want_pause numbers state in
        ((run.0 ≡ ok tt) ↔ CanSet want (runs.pool_of w))
        × (run.0 ≡ ok tt → runs.pool_of (run.1) ≡ (set_pause want (runs.pool_of w)).1)
        × (run.0 ≡ ok tt → (runs.pool_of (run.1)).is_paused ≡ want)
        × ((e : Failure) → run.0 ≡ err e → runs.pool_of (run.1) ≡ runs.pool_of w)
  unfolding set_pause_task task get_lend_pool_addresses_provider
  set_pause_task_lem pool state entry w found at_provider =
      let asked = address_on_file-found node lend_pool_addresses_provider w found in
      let given : get_lend_pool_addresses_provider node w ≡ (ok runs.provider, w) =
        asked ∙ ap (λ a. (ok a, w)) at_provider in
      let e : set_pause_task numbers node calls pool state w ≡ task (want_pause numbers state) w w =
        bind-ok (get_lend_pool_addresses_provider node) ask_admin given
        ∙ bind-ok (calls.get_emergency_admin runs.provider) (ask_configurator runs.provider)
            (runs.asks_emergency_admin w)
        ∙ bind-ok (calls.get_lend_pool_configurator runs.provider)
            (at_configurator runs.provider admin) (runs.asks_configurator w)
        ∙ bind-ok (contract_at node runs.configurator lend_pool_configurator)
            (ask_pool runs.provider admin)
            (given_contract runs.configurator lend_pool_configurator w runs.configurator_given)
        ∙ bind-ok (calls.get_lend_pool runs.provider) (at_pool admin runs.configurator)
            (runs.asks_pool w)
        ∙ bind-ok (contract_at node runs.pool lend_pool) (ask_paused admin runs.configurator)
            (given_contract runs.pool lend_pool w runs.pool_given)
        ∙ bind-ok (calls.paused runs.pool)
            (pause_unless_same calls admin runs.configurator runs.pool (want_pause numbers state))
            (runs.asks_paused w) in
      rw e (
        Agrees-outcome (want_pause numbers state) w
          (pauses_unless_same (want_pause numbers state) w))
    where
      admin : String
      admin = (runs.pool_of w).emergency_admin

      ask_paused : String → String → String → Action W (Unit {0})
      ask_paused em_admin configurator pool_ =
          calls.paused pool_
          >>= pause_unless_same calls em_admin configurator pool_ (want_pause numbers state)

      at_pool : String → String → String → Action W (Unit {0})
      at_pool em_admin configurator address =
          contract_at node address lend_pool >>= ask_paused em_admin configurator

      ask_pool : String → String → String → Action W (Unit {0})
      ask_pool provider em_admin configurator =
          calls.get_lend_pool provider >>= at_pool em_admin configurator

      at_configurator : String → String → String → Action W (Unit {0})
      at_configurator provider em_admin address =
          contract_at node address lend_pool_configurator >>= ask_pool provider em_admin

      ask_configurator : String → String → Action W (Unit {0})
      ask_configurator provider em_admin =
          calls.get_lend_pool_configurator provider >>= at_configurator provider em_admin

      ask_admin : String → Action W (Unit {0})
      ask_admin provider = calls.get_emergency_admin provider >>= ask_configurator provider
