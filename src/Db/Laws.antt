-- ===== src/Db/Laws.antt =====
-- What the lookups find after an address was inserted.
use lender.Common.{String, ◌≡◌, ◌≢◌, refl, false, none, some, arith, ◌==◌, eq_iff}
use lender.Constants.{zero_address}
use lender.Db.{
  Lowdb, DbEntry, insert_contract_address_in_db, address_at_db, get_contract_address_in_db,
  config_param, get_contract_address_with_json_fallback,
}
use lender.Failure.{ok}
use lender.Networks.{Environment, get_optional_param_address_per_network}
use lender.Types.Params.{CommonConfiguration}
use lender.Utils.Address.{AddressChecks, not_falsy_or_zero_address}

module _ {S : Type 0} (db : Lowdb S) where
  address_at_db-set_self :
      (id : String) (v : DbEntry) (s : S)
      → v.address ≢ ""
      → address_at_db db id (db.set id v s) ≡ some v.address
  unfolding address_at_db
  address_at_db-set_self id v s given =
      let full : (v.address == "") ≡ false = ground (arith, eq_iff v.address "") in
      rw (db.get-set_self id v s, address_at_db) (rw full refl)

  get-insert_self :
      (id address : String) (s : S)
      → address ≢ ""
      → get_contract_address_in_db db id (insert_contract_address_in_db db id address s)
        ≡ ok address
  unfolding insert_contract_address_in_db get_contract_address_in_db
  get-insert_self id address s given =
      let v : DbEntry = record { address = address; deployer = none } in
      rw (address_at_db-set_self id v s given, get_contract_address_in_db)

  module _ (checks : AddressChecks) (env : Environment) where
    not_usable_zero : not_falsy_or_zero_address checks (some zero_address) ≡ false
    unfolding not_falsy_or_zero_address
    not_usable_zero = rw checks.zero_is_zero (ground arith)

    none_is_zero :
        get_optional_param_address_per_network env none env.network_name ≡ some zero_address
    unfolding get_optional_param_address_per_network
    none_is_zero = refl

    -- The address of a contract that the market configuration does not name is the one last
    -- inserted on file under its name, where that is not empty.
    pub fallback-insert_contract_address_in_db :
        (c : CommonConfiguration) (id address : String) (s : S)
        → config_param c id ≡ none
        → address ≢ ""
        → get_contract_address_with_json_fallback db checks env c id
            (insert_contract_address_in_db db id address s)
          ≡ ok address
    unfolding get_contract_address_with_json_fallback insert_contract_address_in_db
    fallback-insert_contract_address_in_db c id address s unnamed given =
        rw (unnamed, none_is_zero, not_usable_zero) (get-insert_self id address s given)
