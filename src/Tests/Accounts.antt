-- ===== src/Tests/Accounts.antt =====
-- Witnesses for logins and keys: the directory knows Ann, and Bob has a local account.
use open_mdm.Accounts.{
  GroupRoleMapping, Accounts, invalid_credentials, load_group_mappings, login_event, audited,
  authenticate_user, ApiKeyCreate, issued, raw_key, new_user,
}
use open_mdm.Accounts.Admin.{
  AccountRequest, log_in, call_with_key, issue, revoke_api_key, settled, login, handle_all,
}
use open_mdm.Accounts.Failed.{failed_login_unrecorded}
use open_mdm.Accounts.Laws.{Granted, login-Granted}
use open_mdm.Accounts.Revoked.{revocation_final}
use open_mdm.Auth.{authenticate_api_key}
use open_mdm.Base.{
  ℕ, String, Bool, true, false, ◌≡◌, ◌≢◌, refl, Option, none, some, List, [], ◌∷◌, ◌++◌, ◌==◌,
  if◌then◌else◌,
}
use open_mdm.Base.Results.{Result, ok, err}
use open_mdm.Base.Text.{is_empty_text, text_take, strip}
use open_mdm.Ldap.Directory.{
  LdapException, bind_error, DirectoryEntry, Directory, DirectoryUser, authenticate,
}
use open_mdm.Ldap.Login.{Bound, authenticate-Bound}
use open_mdm.Models.{User, UserSource}
use open_mdm.Settings.{Settings}
use open_mdm.Tests.Fixtures.{py, cfg}

abbrev with_ldap : Settings
with_ldap = record cfg { ldap_enabled = true }

abbrev ann_entry : DirectoryEntry
ann_entry = record {
  dn = "cn=ann";
  member_of = "cn=stewards" ∷ [];
  username = some "ann";
  email = none;
  display_name = some "Ann";
}

abbrev bound_as : String → Result LdapException (Unit {0})
bound_as password = if password == "secret" then ok tt else err bind_error

abbrev known : String → Result LdapException (Option DirectoryEntry)
known name = if name == "ann" then ok (some ann_entry) else ok none

abbrev directory : Directory
directory = record {
  service_bind = ok tt;
  bind = λ dn password. bound_as password;
  search_user = known;
  search_groups = λ dn. ok [];
}

abbrev verify : String → String → Bool
verify password hashed = password == hashed

abbrev sha256 : String → String
sha256 s = s

abbrev bob : User
bob = new_user "bob" UserSource.local none (some "hidden") ("admin" ∷ [])

abbrev accounts : Accounts
accounts = record {
  users = bob ∷ [];
  keys = [];
  mappings = record { group_dn = "cn=stewards"; role = "steward"; is_active = true } ∷ [];
  audit = [];
}

abbrev order : ApiKeyCreate
order = record {
  name = "crm";
  source_system = none;
  allowed_entities = "supplier" ∷ [];
  expires_at = none;
}

abbrev with_key : Accounts
with_key = record accounts { keys = issued sha256 order (raw_key "abcdefgh1234") ∷ [] }

abbrev directory_user : DirectoryUser
directory_user = record {
  username = "ann";
  dn = "cn=ann";
  email = none;
  display_name = some "Ann";
  groups = "cn=stewards" ∷ [];
  roles = "steward" ∷ [];
}

abbrev logged_in : User
logged_in = record bob { last_login_at = some 100 }

authenticate-Bound_example :
    Bound py with_ldap directory "ann" "secret"
      (load_group_mappings accounts.mappings)
      directory_user
unfolding authenticate open_mdm.Ldap.escape_filter open_mdm.Ldap.Directory.directory_user
    open_mdm.Ldap.Directory.resolve_groups open_mdm.Ldap.map_roles load_group_mappings
    open_mdm.Ldap.normalize_dn open_mdm.Ldap.tight_commas open_mdm.Python.Str.lower strip
    open_mdm.Base.Text.lower_ascii
authenticate-Bound_example =
    authenticate-Bound py with_ldap directory "ann" "secret" (load_group_mappings accounts.mappings)
      directory_user refl

login-Granted_example :
    (is_empty_text "hidden" ≡ false)
    × Granted verify py with_ldap directory "hidden" 100 accounts (strip " bob") logged_in
unfolding authenticate_user strip authenticate open_mdm.Ldap.escape_filter
    open_mdm.Accounts.local_login
login-Granted_example =
    login-Granted verify py with_ldap directory "hidden" 100 accounts " bob" logged_in refl

failed_login_unrecorded_example :
    ((authenticate_user verify py with_ldap directory "bob" "guess" 100 accounts).1
      ≡ audited (login_event (strip "bob") "login_failed" false) accounts)
    × (login py with_ldap sha256 verify directory "bob" "guess" 100 accounts ≡ accounts)
unfolding authenticate_user strip authenticate open_mdm.Ldap.escape_filter
    open_mdm.Accounts.local_login
failed_login_unrecorded_example =
    failed_login_unrecorded verify py with_ldap directory sha256 "bob" "guess" 100 accounts refl

abbrev later : List AccountRequest
later =
    issue bob order "abcdefgh9999"
    ∷ call_with_key "mdm_abcdefgh1234" 150
    ∷ log_in "ann" "secret" 160
    ∷ []

abbrev revoked : Accounts
revoked = settled with_key (revoke_api_key bob "mdm_abcdefgh" with_key)

revocation_final_example :
    (authenticate_api_key sha256 "mdm_abcdefgh1234" 200
      (handle_all py cfg sha256 verify directory later revoked).keys).0
    ≢ ok bob
unfolding revoke_api_key
revocation_final_example =
    revocation_final py cfg sha256 verify directory bob bob "mdm_abcdefgh1234" with_key revoked
      later 200 refl
