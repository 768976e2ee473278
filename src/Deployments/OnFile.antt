-- ===== src/Deployments/OnFile.antt =====
-- What deployments put on file, and that nothing that is on file is lost.
use lender.Common.{
  String, Bool, true, false, ◌≡◌, ◌≢◌, refl, sym, ap, ◌∙◌, inl, inr, Bool-cases, ◌==◌, eq_iff, some,
  arith,
}
use lender.Common.Dict.{Dict}
use lender.Db.{is_plain, DbEntry, ContractInstance, register_contract_in_json_db}
use lender.Deploy.{Node, with_save_and_verify}
use lender.Deployments.{Argument, Factories}
use lender.Failure.{Result, ok, err, pure}
use lender.Failure.Laws.{Result-cases, bind-ok, bind-err}
use mathlib.Core.List.{List}
use mathlib.Core.Path.{subst}

-- A deployment gives a contract with an address, and neither it nor a verification writes the file.
abbrev pub HasAddress : Result ContractInstance → Type 0
HasAddress (ok instance_) = (instance_.address == "") ≡ false
HasAddress (err failure) = Unit

pub record LeavesFile {W : Type 0} (node : Node W) (factories : Factories W) : Type 0 where
  pub deploy_file :
      (factory : String) (libraries : Dict String) (args : List Argument) (w : W) (k : String)
      → node.lowdb.get k ((factories.deploy factory libraries args w).1) ≡ node.lowdb.get k w
  pub artifact_file :
      (id : String) (libraries : Dict String) (w : W) (k : String)
      → node.lowdb.get k ((factories.deploy_artifact id libraries w).1) ≡ node.lowdb.get k w
  pub verify_file :
      (id : String) (instance_ : ContractInstance) (w : W) (k : String)
      → node.lowdb.get k ((node.verify_contract id instance_ w).1) ≡ node.lowdb.get k w
  pub deploy_address :
      (factory : String) (libraries : Dict String) (args : List Argument) (w : W)
      → HasAddress ((factories.deploy factory libraries args w).0)
  pub artifact_address :
      (id : String) (libraries : Dict String) (w : W)
      → HasAddress ((factories.deploy_artifact id libraries w).0)

pub differ : (k j : String) → (k == j) ≡ false → k ≢ j
differ k j h e = ground (arith, eq_iff k j)

module _ {W : Type 0} (node : Node W) where
  -- A contract with an address that is not empty is on file under a name.
  pub record OnFile (k : String) (w : W) : Type 0 where
    pub plain : is_plain k ≡ true
    pub entry : DbEntry
    pub found : node.lowdb.get k w ≡ some entry
    pub address : (entry.address == "") ≡ false

  pub OnFile-same :
      (k : String) (w w' : W) → node.lowdb.get k w' ≡ node.lowdb.get k w → OnFile k w → OnFile k w'
  OnFile-same k w w' e h = record {
    plain = h.plain;
    entry = h.entry;
    found = e ∙ h.found;
    address = h.address;
  }

  OnFile-set :
      (k j : String) (v : DbEntry) (w : W)
      → is_plain j ≡ true
      → (v.address == "") ≡ false
      → OnFile k w
      → OnFile k (node.lowdb.set j v w)
  OnFile-set k j v w plain e h = elim (Bool-cases (k == j)) [
    | inl same ↦
        subst (λ i. OnFile i (node.lowdb.set j v w)) (sym ((eq_iff k j).0 same))
          record { plain = plain; entry = v; found = node.lowdb.get-set_self j v w; address = e }
    | inr other ↦
        OnFile-same k w (node.lowdb.set j v w)
          (node.lowdb.get-set_ne k j v w h.plain plain (differ k j other)) h
  ]

module _ {W : Type 0} (node : Node W) (factories : Factories W)
    (leaves : LeavesFile node factories) where
  -- Saving writes one key; verifying writes none.
  pub save_file :
      (i : ContractInstance) (id : String) (verify : Bool) (w : W) (k : String)
      → node.lowdb.get k ((with_save_and_verify node i id verify w).1)
        ≡ node.lowdb.get k (register_contract_in_json_db node.lowdb id i w)
  unfolding with_save_and_verify
  save_file i id false w k = refl
  save_file i id true w k =
      let saved = register_contract_in_json_db node.lowdb id i w in
      elim (Result-cases ((node.verify_contract id i saved).0)) [
        | inl (a, e) ↦
            ap (λ r. node.lowdb.get k (r.1))
              (bind-ok (node.verify_contract id i) (λ _. pure i)
                (ap (λ r. (r, (node.verify_contract id i saved).1)) e))
            ∙ leaves.verify_file id i saved k
        | inr (failure, e) ↦
            ap (λ r. node.lowdb.get k (r.1))
              (bind-err (node.verify_contract id i) (λ _. pure i)
                (ap (λ r. (r, (node.verify_contract id i saved).1)) e))
            ∙ leaves.verify_file id i saved k
      ]

  pub saves :
      (i : ContractInstance) (id : String) (verify : Bool) (w : W)
      → is_plain id ≡ true
      → (i.address == "") ≡ false
      → OnFile node id ((with_save_and_verify node i id verify w).1)
  unfolding register_contract_in_json_db
  saves i id verify w plain h = record {
    plain = plain;
    entry = record { address = i.address; deployer = some i.from };
    found = save_file i id verify w id ∙ node.lowdb.get-set_self id _ w;
    address = h;
  }

  pub save_keeps :
      (i : ContractInstance) (id : String) (verify : Bool) (w : W) (k : String)
      → is_plain id ≡ true
      → (i.address == "") ≡ false
      → OnFile node k w
      → OnFile node k ((with_save_and_verify node i id verify w).1)
  unfolding register_contract_in_json_db
  save_keeps i id verify w k plain h on =
      OnFile-same node k _ _ (save_file i id verify w k) (OnFile-set node k id _ w plain h on)

  pub save_frames :
      (i : ContractInstance) (id : String) (verify : Bool) (w : W) (k : String)
      → is_plain id ≡ true
      → is_plain k ≡ true
      → (k == id) ≡ false
      → node.lowdb.get k ((with_save_and_verify node i id verify w).1) ≡ node.lowdb.get k w
  unfolding register_contract_in_json_db
  save_frames i id verify w k plain plain_k other =
      save_file i id verify w k ∙ node.lowdb.get-set_ne k id _ w plain_k plain (differ k id other)
