-- ===== src/Init/Reserves/Configured.antt =====
-- What the configuration of the reserves of a market leaves in the pool.
use mathlib.Core.List.{map-append, cons-ne-nil}
use lender.Common.{
  String, ◌≡◌, ◌≤◌, refl, sym, ap, ◌∙◌, if◌then◌else◌, true, List, [], ◌∷◌, map, concat, All, arith,
  some, Bool-cases, inl, inr,
}
use lender.Common.Dict.{Dict, lookup}
use lender.Contracts.Configurator.{get_borrowing_enabled, set_borrowing_flags}
use lender.Contracts.Configurator.Borrowing.{set_borrowing_flags-Outcome, then_flags}
use lender.Contracts.Configurator.Recorded.{
  ReserveOutcome, last_reserve_for, configured_reserves-Outcome,
}
use lender.Contracts.Configurator.Reserves.{
  FactorFits, configured_reserves, configured_reserves-append, configured_reserves_pool_admin,
  batch_config_reserve-ok, set_borrowing_flag_on_reserve-ok,
}
use lender.Db.{DbEntry}
use lender.Deploy.{
  Node, ConfigReserveArgs, each, address_on_file, address_on_file-found,
  get_lend_pool_addresses_provider, get_lend_pool_configurator_proxy,
}
use lender.Failure.{Action, ok, ◌>>=◌}
use lender.Failure.Laws.{bind-ok}
use lender.Init.Chain.{to_reserve_input, RunsConfigurator}
use lender.Init.Nfts.Configured.{All-concat}
use lender.Init.Reserves.{
  config_reserve_inputs, assets_params, send_reserve_configs, configure_reserves_by_helper,
}
use lender.Types.ContractId.{lend_pool_configurator, lend_pool_addresses_provider}
use lender.Types.Params.{ReserveParams}
use lender.Utils.Address.{truthy}
use lender.Utils.Chunk.{chunk}
use lender.Utils.Chunk.Laws.{chunk_lem}
use lender.Utils.Objects.{includes}

-- A reserve factor that fits its field.
abbrev pub Fitting : ConfigReserveArgs → Type 0
Fitting args = args.reserve_factor ≤ 65535

Fitting-FactorFits :
    (args : List ConfigReserveArgs) → All Fitting args → All FactorFits (map to_reserve_input args)
Fitting-FactorFits [] h = tt
Fitting-FactorFits (a ∷ rest) (p, hs) = (p, Fitting-FactorFits rest hs)

-- Where no reserve is listed, none is to be borrowed.
none_listed :
    (reserves : Dict ReserveParams) (addresses : Dict String)
    → config_reserve_inputs reserves addresses ≡ []
    → assets_params reserves addresses ≡ []
unfolding config_reserve_inputs assets_params
none_listed [] addresses h = refl
none_listed ((symbol, params) ∷ reserves) addresses h =
    elim (Bool-cases (truthy (lookup symbol addresses))) [
      | inl listed ↦ absurd (cons-ne-nil _ _ (rw (listed, config_reserve_inputs) at h))
      | inr unlisted ↦
          rw unlisted (none_listed reserves addresses (rw (unlisted, config_reserve_inputs) at h))
    ]

module _ {W : Type 0} (node : Node W) (sender : String) (runs : RunsConfigurator node sender) where
  run_each :
      (chunks : List (List ConfigReserveArgs)) (w : W)
      → (runs.pool_of w).pool_admin ≡ sender
      → All (All Fitting) chunks
      → ((each (node.batch_config_reserve runs.configurator) chunks w).0 ≡ ok tt)
        × (runs.pool_of ((each (node.batch_config_reserve runs.configurator) chunks w).1)
            ≡ configured_reserves (map to_reserve_input (concat chunks)) (runs.pool_of w))
  unfolding configured_reserves
  run_each [] w admin good = (refl, refl)
  run_each (args ∷ chunks) w admin (good, goods) =
      let m = node.batch_config_reserve runs.configurator args in
      let batch =
        batch_config_reserve-ok sender (map to_reserve_input args) (runs.pool_of w) admin
          (Fitting-FactorFits args good) in
      let (r0, p0) = runs.config_reserve args w in
      let r : (m w).0 ≡ ok tt = r0 ∙ ap (λ x. x.0) batch in
      let p : runs.pool_of ((m w).1)
          ≡ configured_reserves (map to_reserve_input args) (runs.pool_of w) =
        p0 ∙ ap (λ x. x.1) batch in
      let e =
        bind-ok m (λ _. each (node.batch_config_reserve runs.configurator) chunks)
          (ap (λ x. (x, (m w).1)) r) in
      let (r2, p2) =
        run_each chunks ((m w).1)
          (ap (λ x. x.pool_admin) p
            ∙ configured_reserves_pool_admin (map to_reserve_input args) (runs.pool_of w)
            ∙ admin)
          goods in
      (
        ap (λ x. x.0) e ∙ r2,
        ap (λ x. runs.pool_of (x.1)) e
            ∙ p2
            ∙ ap (configured_reserves (map to_reserve_input (concat chunks))) p
            ∙ sym (
                configured_reserves-append (map to_reserve_input args)
                  (map to_reserve_input (concat chunks)) (runs.pool_of w))
            ∙ ap (λ is. configured_reserves is (runs.pool_of w))
                (sym (map-append to_reserve_input args (concat chunks))),
      )

  -- A batch of the helper, and then the flag.
  send :
      (args : List ConfigReserveArgs) (assets : List String) (w : W)
      → (runs.pool_of w).pool_admin ≡ sender
      → All Fitting args
      → (args ≡ [] → assets ≡ [])
      → ((send_reserve_configs node args assets runs.configurator w).0 ≡ ok tt)
        × (runs.pool_of ((send_reserve_configs node args assets runs.configurator w).1)
            ≡ set_borrowing_flags assets true
                (configured_reserves (map to_reserve_input args) (runs.pool_of w)))
  unfolding configured_reserves set_borrowing_flags
  send [] assets w admin good none_listed_ = (refl, rw (none_listed_ refl) refl)
  send (a ∷ rest) assets w admin good _ =
      let whole = (chunk_lem (a ∷ rest) 20 (omega arith)).0 in
      let m = each (node.batch_config_reserve runs.configurator) (chunk (a ∷ rest) 20) in
      let (r, p0) =
        run_each (chunk (a ∷ rest) 20) w admin
          (All-concat Fitting (chunk (a ∷ rest) 20) (rw whole good)) in
      let p : runs.pool_of ((m w).1)
          ≡ configured_reserves (map to_reserve_input (a ∷ rest)) (runs.pool_of w) =
        p0 ∙ ap (λ xs. configured_reserves (map to_reserve_input xs) (runs.pool_of w)) whole in
      let flag = runs.borrowing_flag assets true ((m w).1) in
      let set_ = set_borrowing_flag_on_reserve-ok sender assets true (runs.pool_of ((m w).1)) (
        ap (λ x. x.pool_admin) p
        ∙ configured_reserves_pool_admin (map to_reserve_input (a ∷ rest)) (runs.pool_of w)
        ∙ admin) in
      let e =
        bind-ok m (λ _. node.set_borrowing_flag_on_reserve runs.configurator assets true)
          (ap (λ x. (x, (m w).1)) r) in
      (
        ap (λ x. x.0) e ∙ flag.0 ∙ ap (λ x. x.0) set_,
        ap (λ x. runs.pool_of (x.1)) e
            ∙ flag.1
            ∙ ap (λ x. x.1) set_
            ∙ ap (set_borrowing_flags assets true) p,
      )

  module _ (params : Dict ReserveParams) (addresses : Dict String) (admin : String) (w : W) where
    sends :
        (provider entry : DbEntry)
        → node.lowdb.get "LendPoolAddressesProvider" w ≡ some provider
        → node.lowdb.get "LendPoolConfigurator" w ≡ some entry
        → entry.address ≡ runs.configurator
        → configure_reserves_by_helper node params addresses admin w
          ≡ send_reserve_configs node
              (config_reserve_inputs params addresses)
              (assets_params params addresses)
              runs.configurator
              w
    unfolding configure_reserves_by_helper get_lend_pool_addresses_provider
        get_lend_pool_configurator_proxy
    sends provider entry has_provider has_configurator at_address =
        bind-ok (address_on_file node lend_pool_addresses_provider)
          (λ _. address_on_file node lend_pool_configurator >>= rest)
          (address_on_file-found node lend_pool_addresses_provider w has_provider)
        ∙ bind-ok (address_on_file node lend_pool_configurator) rest
            (address_on_file-found node lend_pool_configurator w has_configurator)
        ∙ ap (λ c. rest c w) at_address
      where
        rest : String → Action W (Unit {0})
        rest =
            send_reserve_configs node (config_reserve_inputs params addresses)
              (assets_params params addresses)

    -- Where the provider and the configurator are on file, the calls run the configurator, the
    -- sender is the pool admin and every reserve factor fits its field,
    -- `configureReservesByHelper` succeeds; then every reserve has the reserve factor and the
    -- maximal utilization rate of the last of its arguments for it, or those from before where
    -- there is none, is enabled for borrowing where it is listed for that and as before
    -- elsewhere, and keeps its tokens, its rate strategy, its liquidity rate and its id.
    pub configure_reserves_by_helper_configures :
        (provider entry : DbEntry) (k : String)
        → node.lowdb.get "LendPoolAddressesProvider" w ≡ some provider
        → node.lowdb.get "LendPoolConfigurator" w ≡ some entry
        → entry.address ≡ runs.configurator
        → (runs.pool_of w).pool_admin ≡ sender
        → All Fitting (config_reserve_inputs params addresses)
        → ((configure_reserves_by_helper node params addresses admin w).0 ≡ ok tt)
          × ReserveOutcome
              ((runs.pool_of w).reserves k)
              ((runs.pool_of
                  ((configure_reserves_by_helper node params addresses admin w).1)).reserves
                k)
              (last_reserve_for k (map to_reserve_input (config_reserve_inputs params addresses)))
              (if includes (assets_params params addresses) k
                then true
                else get_borrowing_enabled (((runs.pool_of w).reserves k).configuration))
    configure_reserves_by_helper_configures provider entry k has_provider has_configurator
          at_address is_admin good =
        let args = config_reserve_inputs params addresses in
        let assets = assets_params params addresses in
        let inputs = map to_reserve_input args in
        let (r, p) = send args assets w is_admin good (none_listed params addresses) in
        let batch =
          configured_reserves-Outcome inputs (runs.pool_of w) k (Fitting-FactorFits args good) in
        let flags =
          set_borrowing_flags-Outcome assets (configured_reserves inputs (runs.pool_of w)) k in
        rw (sends provider entry has_provider has_configurator at_address)
          (r, rw p (then_flags (last_reserve_for k inputs) (includes assets k) batch flags))
