-- ===== src/Accounts.antt =====
-- app/services/auth.py: logins, local accounts and the issue of API keys, on the tables of accounts,
-- keys and group mappings. The hashes are parameters, and so is the secret of a new key. The
-- addresses and details of audit events are left out. Accounts have different names and keys
-- different prefixes, since the columns are unique: the first row of a name is the only one.
pub mod Admin
pub mod Laws
pub mod Failed
pub mod Logins
pub mod Revoked
use Prim.Native.String
use open_mdm.Auth.{matching}
use open_mdm.Base.{
  ℕ, String, Bool, true, false, not, ◌&&◌, ◌||◌, Option, none, some, List, [], ◌∷◌, ◌++◌, map, Dict,
  keep, any, find_first, update_where, is_empty, ◌==◌, if◌then◌else◌,
}
use open_mdm.Base.Results.{Result, ok, err}
use open_mdm.Base.Text.{is_empty_text, text_take, strip}
use open_mdm.Ldap.Directory.{
  Directory, DirectoryUser, DirectoryError, ldap_authentication, ldap_unavailable,
  ldap_configuration, ldap_exception, authenticate,
}
use open_mdm.Models.{User, UserSource, ApiKey, AuditEvent}
use open_mdm.Python.{Python}
use open_mdm.Settings.{Settings}

pub record GroupRoleMapping : Type 0 where
  pub group_dn : String
  pub role : String
  pub is_active : Bool

pub record Accounts : Type 0 where
  pub users : List User
  pub keys : List ApiKey
  pub mappings : List GroupRoleMapping
  pub audit : List AuditEvent

pub data AccountError : Type 0 where
  credentials_missing no_access invalid_credentials directory_failed : AccountError
  unknown_roles user_not_found own_account : AccountError
  mapping_exists mapping_not_found key_not_found integrity_error : AccountError

-- The result, and the tables as they are at its end, raised or not.
abbrev pub Attempt : Type 0 → Type 0
Attempt A = Result AccountError A × Accounts

unfoldable pub load_group_mappings : List GroupRoleMapping → Dict String
load_group_mappings ms =
    map (λ (m : GroupRoleMapping). (m.group_dn, m.role))
      (keep (λ (m : GroupRoleMapping). m.is_active) ms)

abbrev pub has_username : String → User → Bool
has_username username u = u.username == username

-- `old or new` of two columns: an empty text counts as missing.
abbrev pub or_column : Option String → Option String → Option String
or_column none old = old
or_column (some new) old = if is_empty_text new then old else some new

-- The account of a directory user, from what it was.
unfoldable pub synced : DirectoryUser → ℕ → User → User
synced d now u = record u {
  email = or_column d.email u.email;
  display_name = or_column d.display_name u.display_name;
  dn = some d.dn;
  roles = d.roles;
  source = UserSource.ldap;
  is_active = true;
  last_login_at = some now;
}

abbrev pub new_user : String → UserSource → Option String → Option String → List String → User
new_user username source display_name password_hash roles = record {
  username = username;
  email = none;
  display_name = display_name;
  source = source;
  password_hash = password_hash;
  dn = none;
  roles = roles;
  entity_permissions = [];
  is_active = true;
  last_login_at = none;
}

abbrev pub with_user : DirectoryUser → ℕ → Option User → List User → User × List User
with_user d now none users =
    let u = synced d now (new_user d.username UserSource.ldap none none []) in (u, users ++ u ∷ [])
with_user d now (some u) users =
    (synced d now u, update_where (has_username d.username) (synced d now) users)

unfoldable pub upsert_ldap_user : DirectoryUser → ℕ → List User → User × List User
unfolding synced
upsert_ldap_user d now users = with_user d now (find_first (has_username d.username) users) users

abbrev pub login_event : String → String → Bool → AuditEvent
login_event actor action success = record {
  actor = actor;
  actor_roles = [];
  action = action;
  entity_name = none;
  record_id = none;
  tier = none;
  detail = [];
  success = success;
}

abbrev pub audited : AuditEvent → Accounts → Accounts
audited event s = record s { audit = s.audit ++ event ∷ [] }

abbrev pub as_logged_in : ℕ → User → User
as_logged_in now u = record u { last_login_at = some now }

abbrev pub is_local : UserSource → Bool
is_local UserSource.local = true
is_local _ = false

abbrev pub is_local_user : String → User → Bool
is_local_user username u = u.username == username && is_local u.source

module _ (verify : String → String → Bool) where
  abbrev pub verify_password : String → Option String → Bool
  verify_password password none = false
  verify_password password (some hashed) =
      if is_empty_text hashed then false else verify password hashed

  abbrev pub may_log_in : String → Option User → Option User
  may_log_in password none = none
  may_log_in password (some u) =
      if u.is_active && verify_password password u.password_hash then some u else none

  abbrev pub local_outcome : String → ℕ → Option User → Accounts → Attempt User
  local_outcome username now none s =
      (err invalid_credentials, audited (login_event username "login_failed" false) s)
  local_outcome username now (some u) s = (
    ok (as_logged_in now u),
    audited (login_event username "login" true)
        (record s { users = update_where (is_local_user username) (as_logged_in now) s.users }),
  )

  -- The break-glass account.
  unfoldable pub local_login : String → String → ℕ → Accounts → Attempt User
  local_login username password now s =
      local_outcome username now (may_log_in password (find_first (is_local_user username) s.users))
        s

  abbrev pub granted : String → User → Accounts → Attempt User
  granted username u s =
      if is_empty u.roles
      then (err no_access, audited (login_event username "login_denied" false) s)
      else (ok u, audited (login_event username "login" true) s)

  unfoldable pub directory_login : String → ℕ → DirectoryUser → Accounts → Attempt User
  unfolding upsert_ldap_user
  directory_login username now d s =
      let (u, users) = upsert_ldap_user d now s.users in
      granted username u (record s { users = users })

  -- Any refusal by the directory, and its failure, leave the local account.
  abbrev pub by_directory :
      String → String → ℕ → Result DirectoryError DirectoryUser → Accounts → Attempt User
  by_directory username password now (ok d) s = directory_login username now d s
  by_directory username password now (err ldap_exception) s = (err directory_failed, s)
  by_directory username password now (err _) s = local_login username password now s

  module _ (py : Python) (cfg : Settings) (directory : Directory) where
    abbrev pub attempt : String → String → ℕ → Accounts → Attempt User
    attempt username password now s =
        if cfg.ldap_enabled
        then by_directory username password now
            (authenticate py cfg directory username password (load_group_mappings s.mappings)) s
        else local_login username password now s

    unfoldable pub authenticate_user : String → String → ℕ → Accounts → Attempt User
    authenticate_user username password now s =
        if is_empty_text (strip username) || is_empty_text password
        then (err credentials_missing, s)
        else attempt (strip username) password now s

-- `settings.LOCAL_ADMIN_PASSWORD`, or else the generated one.
abbrev pub admin_password : Option String → String → String
admin_password none generated = generated
admin_password (some password) generated = if is_empty_text password then generated else password

-- The account of the settings, with a generated password if they have none; nothing if there is
-- one of its name.
unfoldable pub ensure_local_admin : (String → String) → Settings → String → Accounts → Accounts
ensure_local_admin hash cfg generated s =
    if not cfg.local_admin_enabled || any (has_username cfg.local_admin_username) s.users
    then s
    else record s {
      users =
          s.users
          ++ new_user cfg.local_admin_username UserSource.local
              (some "Local Administrator (break-glass)")
              (some (hash (admin_password cfg.local_admin_password generated))) ("admin" ∷ [])
            ∷ [];
    }

abbrev pub raw_key : String → String
raw_key secret = String.◌++◌ "mdm_" secret

abbrev pub has_prefix : String → ApiKey → Bool
has_prefix prefix k = k.key_prefix == prefix

pub record ApiKeyCreate : Type 0 where
  pub name : String
  pub source_system : Option String
  pub allowed_entities : List String
  pub expires_at : Option ℕ

abbrev pub issued : (String → String) → ApiKeyCreate → String → ApiKey
issued sha256 p raw = record {
  name = p.name;
  key_prefix = text_take 12 raw;
  key_hash = sha256 raw;
  source_system = p.source_system;
  allowed_entities = p.allowed_entities;
  is_active = true;
  expires_at = p.expires_at;
  last_used_at = none;
}

-- A new row under uq_api_key_prefix, and the plain key.
unfoldable pub issue_api_key :
    (String → String)
    → ApiKeyCreate
    → String
    → List ApiKey
    → Result AccountError (String × List ApiKey)
issue_api_key sha256 p secret keys =
    if any (has_prefix (text_take 12 (raw_key secret))) keys
    then err integrity_error
    else ok (raw_key secret, keys ++ issued sha256 p (raw_key secret) ∷ [])
