-- ===== src/Init/Nfts/Configured.antt =====
-- What the initialisation and the configuration of NFTs send, and what they leave in the pool.
use mathlib.Core.List.{map-append}
use lender.Common.{
  String, ◌≡◌, refl, sym, ap, ◌∙◌, List, [], ◌∷◌, ◌++◌, map, concat, All, arith, some,
}
use lender.Common.Dict.{Dict}
use lender.Contracts.Configurator.Acceptance.{Acceptable}
use lender.Contracts.Configurator.Batch.{
  AllAcceptable, configured_all, configured_all-append, configured_all_pool_admin,
  batch_config_nft-ok, last_for, Outcome, NftsOnly, configured_all-Outcome, configured_all-NftsOnly,
}
use lender.Deploy.{
  Node, ConfigNftArgs, each, address_on_file, address_on_file-found,
  get_lend_pool_addresses_provider, get_lend_pool_configurator_proxy,
}
use lender.Failure.{Action, ok, ◌>>=◌}
use lender.Types.ContractId.{lend_pool_configurator, lend_pool_addresses_provider}
use lender.Db.{DbEntry}
use lender.Failure.Laws.{bind-ok}
use lender.Init.Chain.{IsPlain, to_input, RunsConfigurator}
use lender.Init.Nfts.{config_nft_inputs, configure_nfts_by_helper, send_nft_configs}
use lender.Types.Params.{NftParams}
use lender.Utils.Chunk.{chunk}
use lender.Utils.Chunk.Laws.{chunk_lem}

-- Arguments that encode an acceptable input.
abbrev pub Good : ConfigNftArgs → Type 0
Good args = IsPlain args.base_ltv × Acceptable (to_input args)

Good-IsPlain : (args : List ConfigNftArgs) → All Good args → All (λ a. IsPlain a.base_ltv) args
Good-IsPlain [] h = tt
Good-IsPlain (a ∷ rest) ((p, q), hs) = (p, Good-IsPlain rest hs)

Good-AllAcceptable : (args : List ConfigNftArgs) → All Good args → AllAcceptable (map to_input args)
Good-AllAcceptable [] h = tt
Good-AllAcceptable (a ∷ rest) ((p, q), hs) = (q, Good-AllAcceptable rest hs)

module _ {ℓ κ} {A : Type ℓ} (P : A → Type κ) where
  All-split : (xs ys : List A) → All P (xs ++ ys) → All P xs × All P ys
  All-split [] ys h = (tt, h)
  All-split (x ∷ xs) ys (p, h) = let (a, b) = All-split xs ys h in ((p, a), b)

  pub All-concat : (xss : List (List A)) → All P (concat xss) → All (All P) xss
  All-concat [] h = tt
  All-concat (xs ∷ xss) h = let (a, b) = All-split xs (concat xss) h in (a, All-concat xss b)

module _ {W : Type 0} (node : Node W) (sender : String) (runs : RunsConfigurator node sender) where
  run_one :
      (args : List ConfigNftArgs) (w : W)
      → (runs.pool_of w).pool_admin ≡ sender
      → All Good args
      → ((node.batch_config_nft runs.configurator args w).0 ≡ ok tt)
        × (runs.pool_of ((node.batch_config_nft runs.configurator args w).1)
            ≡ configured_all (map to_input args) (runs.pool_of w))
  run_one args w admin good =
      let (r, p) = runs.config_nft args w (Good-IsPlain args good) in
      let e =
        batch_config_nft-ok sender (map to_input args) (runs.pool_of w) admin
          (Good-AllAcceptable args good) in
      (r ∙ ap (λ x. x.0) e, p ∙ ap (λ x. x.1) e)

  run_each :
      (chunks : List (List ConfigNftArgs)) (w : W)
      → (runs.pool_of w).pool_admin ≡ sender
      → All (All Good) chunks
      → ((each (node.batch_config_nft runs.configurator) chunks w).0 ≡ ok tt)
        × (runs.pool_of ((each (node.batch_config_nft runs.configurator) chunks w).1)
            ≡ configured_all (map to_input (concat chunks)) (runs.pool_of w))
  unfolding configured_all
  run_each [] w admin good = (refl, refl)
  run_each (args ∷ chunks) w admin (good, goods) =
      let m = node.batch_config_nft runs.configurator args in
      let (r, p) = run_one args w admin good in
      let w' : W = (m w).1 in
      let e =
        bind-ok m (λ _. each (node.batch_config_nft runs.configurator) chunks)
          (ap (λ x. (x, (m w).1)) r) in
      let (r2, p2) =
        run_each chunks w'
          (ap (λ x. x.pool_admin) p
            ∙ configured_all_pool_admin (map to_input args) (runs.pool_of w)
            ∙ admin)
          goods in
      (
        ap (λ x. x.0) e ∙ r2,
        ap (λ x. runs.pool_of (x.1)) e
            ∙ p2
            ∙ ap (configured_all (map to_input (concat chunks))) p
            ∙ sym (
                configured_all-append (map to_input args) (map to_input (concat chunks))
                  (runs.pool_of w))
            ∙ ap (λ is. configured_all is (runs.pool_of w))
                (sym (map-append to_input args (concat chunks))),
      )

  -- The branch of the helper on whether there is anything to send.
  send :
      (args : List ConfigNftArgs) (w : W)
      → (runs.pool_of w).pool_admin ≡ sender
      → All Good args
      → ((send_nft_configs node args runs.configurator w).0 ≡ ok tt)
        × (runs.pool_of ((send_nft_configs node args runs.configurator w).1)
            ≡ configured_all (map to_input args) (runs.pool_of w))
  unfolding configured_all
  send [] w admin good = (refl, refl)
  send (a ∷ rest) w admin good =
      let whole = (chunk_lem (a ∷ rest) 20 (omega arith)).0 in
      let (r, p) =
        run_each (chunk (a ∷ rest) 20) w admin
          (All-concat Good (chunk (a ∷ rest) 20) (rw whole good)) in
      (r, p ∙ ap (λ xs. configured_all (map to_input xs) (runs.pool_of w)) whole)

  module _ (params : Dict NftParams) (addresses : Dict String) (admin : String) (w : W) where
    sends :
        (provider entry : DbEntry)
        → node.lowdb.get "LendPoolAddressesProvider" w ≡ some provider
        → node.lowdb.get "LendPoolConfigurator" w ≡ some entry
        → entry.address ≡ runs.configurator
        → configure_nfts_by_helper node params addresses admin w
          ≡ send_nft_configs node (config_nft_inputs params addresses) runs.configurator w
    unfolding configure_nfts_by_helper get_lend_pool_addresses_provider
        get_lend_pool_configurator_proxy
    sends provider entry has_provider has_configurator at_address =
        bind-ok (address_on_file node lend_pool_addresses_provider)
          (λ _. address_on_file node lend_pool_configurator >>= rest)
          (address_on_file-found node lend_pool_addresses_provider w has_provider)
        ∙ bind-ok (address_on_file node lend_pool_configurator) rest
            (address_on_file-found node lend_pool_configurator w has_configurator)
        ∙ ap (λ c. rest c w) at_address
      where
        rest : String → Action W (Unit {0})
        rest = send_nft_configs node (config_nft_inputs params addresses)

    -- Where the provider and the configurator are on file, the calls run the configurator, the
    -- sender is the pool admin and every argument encodes an acceptable input,
    -- `configureNftsByHelper` succeeds; then the record of every asset is configured by the
    -- last of its arguments for that asset, or as before where there is none, and the reserves,
    -- the pause and the roles are as before.
    pub configure_nfts_by_helper_configures :
        (provider entry : DbEntry) (k : String)
        → node.lowdb.get "LendPoolAddressesProvider" w ≡ some provider
        → node.lowdb.get "LendPoolConfigurator" w ≡ some entry
        → entry.address ≡ runs.configurator
        → (runs.pool_of w).pool_admin ≡ sender
        → All Good (config_nft_inputs params addresses)
        → ((configure_nfts_by_helper node params addresses admin w).0 ≡ ok tt)
          × Outcome
              ((runs.pool_of w).nfts k)
              ((runs.pool_of ((configure_nfts_by_helper node params addresses admin w).1)).nfts k)
              (last_for k (map to_input (config_nft_inputs params addresses)))
          × NftsOnly
              (runs.pool_of w)
              (runs.pool_of ((configure_nfts_by_helper node params addresses admin w).1))
    configure_nfts_by_helper_configures provider entry k has_provider has_configurator at_address
          is_admin good =
        let inputs = map to_input (config_nft_inputs params addresses) in
        let (r, p) = send (config_nft_inputs params addresses) w is_admin good in
        rw (sends provider entry has_provider has_configurator at_address) (
          r,
          rw p (
              configured_all-Outcome inputs (runs.pool_of w) k
                (Good-AllAcceptable (config_nft_inputs params addresses) good)),
          rw p (configured_all-NftsOnly inputs (runs.pool_of w)),
        )
