-- ===== src/Settings.antt =====
-- app/config.py: the settings that decide how the services behave. Connection strings, schema names
-- and the other settings that are only passed on are left out.
use open_mdm.Base.{ℕ, String, Bool, Option}

pub record Settings : Type 0 where
  pub enforce_segregation_of_duties : Bool
  pub auto_promote_landing : Bool
  pub soft_delete : Bool
  pub max_bulk_rows : ℕ
  pub ldap_enabled : Bool
  pub ldap_nested_groups : Bool
  pub ldap_admin_group_dn : Option String
  pub ldap_steward_group_dn : Option String
  pub ldap_reader_group_dn : Option String
  pub local_admin_enabled : Bool
  pub local_admin_username : String
  pub local_admin_password : Option String
