-- ===== src/Deployments/Stage.antt =====
-- Deployments as stages: each puts names on file and keeps what is on file.
use lender.Common.{
  refl, String, Bool, true, false, All, ◌==◌, ◌∙◌, ◌≡◌, sym, ap, inl, inr, List, [], ◌∷◌,
}
use lender.Common.Dict.{Dict}
use lender.Db.{is_plain, ContractInstance}
use lender.Deploy.{Node, with_save_and_verify}
use lender.Deployments.{Argument, Factories, deploy_and_save}
use lender.Deployments.Libraries.{deploy_linked}
use lender.Deployments.OnFile.{
  LeavesFile, HasAddress, OnFile, OnFile-same, saves, save_keeps, save_frames,
}
use lender.Failure.{ok, Action, pure, ◌>>=◌}
use lender.Failure.Laws.{Result-cases, bind-ok, bind-err, bind-passed}
use mathlib.Core.List.{◌++◌}
use mathlib.Core.Path.{subst}

module _ {W : Type 0} (node : Node W) where
  abbrev pub AllOnFile : List String → W → Type 0
  AllOnFile [] w = Unit
  AllOnFile (k ∷ ks) w = OnFile node k w × AllOnFile ks w

  AllOnFile-append :
      (ks js : List String) (w : W) → AllOnFile ks w → AllOnFile js w → AllOnFile (ks ++ js) w
  AllOnFile-append [] js w h g = g
  AllOnFile-append (k ∷ ks) js w h g = (h.0, AllOnFile-append ks js w h.1 g)

  -- None of the names of a list is the key.
  abbrev pub NoneIs : String → List String → Type 0
  NoneIs k ks = All (λ j. (k == j) ≡ false) ks

  NoneIs-append :
      (k : String) (ks js : List String) → NoneIs k (ks ++ js) → NoneIs k ks × NoneIs k js
  NoneIs-append k [] js h = (tt, h)
  NoneIs-append k (i ∷ ks) js h =
      let (first, second) = NoneIs-append k ks js h.1 in ((h.0, first), second)

  -- An action that loses no name, that has put all of the list on file if it succeeds, and that
  -- leaves every other name as it is.
  pub record Stage {A : Type 0} (ks : List String) (m : Action W A) : Type 0 where
    pub keeps : (w : W) (k : String) → OnFile node k w → OnFile node k ((m w).1)
    pub puts : (w : W) {a : A} → (m w).0 ≡ ok a → AllOnFile ks ((m w).1)
    pub frames :
        (w : W) (k : String)
        → is_plain k ≡ true
        → NoneIs k ks
        → node.lowdb.get k ((m w).1) ≡ node.lowdb.get k w

  AllOnFile-kept :
      {A : Type 0} {js : List String} {m : Action W A} (ks : List String) (w : W)
      → Stage js m
      → AllOnFile ks w
      → AllOnFile ks ((m w).1)
  AllOnFile-kept [] w s h = tt
  AllOnFile-kept (k ∷ ks) w s h = (s.keeps w k h.0, AllOnFile-kept ks w s h.1)

  pub Stage-pure : {A : Type 0} (a : A) → Stage [] (pure a)
  Stage-pure a = record { keeps = λ w k h. h; puts = λ w e. tt; frames = λ w k plain h. refl }

  module _ {A B : Type 0} (m : Action W A) (f : A → Action W B) where
    -- What a sequence leaves is what its last action leaves.
    bind_leaves :
        (P : W → Type 0) (w : W)
        → P ((m w).1)
        → ((a : A) → (m w).0 ≡ ok a → P ((f a (m w).1).1))
        → P (((m >>= f) w).1)
    bind_leaves P w h g = elim (Result-cases ((m w).0)) [
      | inl (a, e) ↦ subst (λ r. P (r.1)) (sym (bind-ok m f (ap (λ r. (r, (m w).1)) e))) (g a e)
      | inr (failure, e) ↦ subst (λ r. P (r.1)) (sym (bind-err m f (ap (λ r. (r, (m w).1)) e))) h
    ]

    pub Stage-bind :
        {ks js : List String} → Stage ks m → ((a : A) → Stage js (f a)) → Stage (ks ++ js) (m >>= f)
    Stage-bind {ks} {js} s t = record {
      keeps = λ w k h.
          bind_leaves (OnFile node k) w (s.keeps w k h) (λ a e. (t a).keeps _ k (s.keeps w k h));
      frames = λ w k plain h.
          let (first, second) = NoneIs-append k ks js h in
          let same = s.frames w k plain first in
          bind_leaves (λ v. node.lowdb.get k v ≡ node.lowdb.get k w) w same
            (λ a e. (t a).frames _ k plain second ∙ same);
      puts = λ w e.
          let (a, made, rest) = bind-passed m f w e in
          subst (λ r. AllOnFile (ks ++ js) (r.1)) (sym (bind-ok m f made))
            (AllOnFile-append ks js _ (AllOnFile-kept ks _ (t a) (s.puts w (ap (λ r. r.0) made)))
              ((t a).puts _ rest));
    }

module _ {W : Type 0} (node : Node W) (factories : Factories W)
    (leaves : LeavesFile node factories) where
  -- A contract that comes with an address and leaves the file is saved under its name.
  Stage-saved :
      (made : Action W ContractInstance)
      → ((w : W) (k : String) → node.lowdb.get k ((made w).1) ≡ node.lowdb.get k w)
      → ((w : W) → HasAddress ((made w).0))
      → (id : String) (verify : Bool) → is_plain id ≡ true
      → Stage node (id ∷ []) (made >>= λ c. with_save_and_verify node c id verify)
  Stage-saved made file address id verify plain =
      let save = λ (c : ContractInstance). with_save_and_verify node c id verify in
      record {
        keeps = λ w k h.
            let on = OnFile-same node k w _ (file w k) h in
            bind_leaves node made save (OnFile node k) w on (λ c e.
              save_keeps node factories leaves c id verify _ k plain
                (subst HasAddress e (address w)) on);
        frames = λ w k plain_k h.
            bind_leaves node made save (λ v. node.lowdb.get k v ≡ node.lowdb.get k w) w (file w k)
              (λ c e.
                save_frames node factories leaves c id verify _ k plain plain_k h.0 ∙ file w k);
        puts = λ w e.
            let (c, done, _) = bind-passed made save w e in
            subst (λ r. AllOnFile node (id ∷ []) (r.1)) (sym (bind-ok made save done))
              (
                saves node factories leaves c id verify _ plain
                    (subst HasAddress (ap (λ r. r.0) done) (address w)),
                tt,
              );
      }

  pub Stage-deploy_and_save :
      (factory : String) (libraries : Dict String) (args : List Argument) (id : String)
      (verify : Bool)
      → is_plain id ≡ true
      → Stage node (id ∷ []) (deploy_and_save node factories factory libraries args id verify)
  unfolding deploy_and_save
  Stage-deploy_and_save factory libraries args =
      Stage-saved (factories.deploy factory libraries args)
        (leaves.deploy_file factory libraries args) (leaves.deploy_address factory libraries args)

  pub Stage-deploy_linked :
      (id : String) (libraries : Dict String) (verify : Bool)
      → is_plain id ≡ true
      → Stage node (id ∷ []) (deploy_linked node factories id libraries verify)
  unfolding deploy_linked
  Stage-deploy_linked id libraries =
      Stage-saved (factories.deploy_artifact id libraries) (leaves.artifact_file id libraries)
        (leaves.artifact_address id libraries) id
