-- ===== src/Accounts/Admin.antt =====
-- app/api/v1/admin.py, the requests that change accounts, group mappings and keys, and
-- app/api/v1/auth.py, the login; each in a transaction that a failure rolls back. The permission of
-- the caller is checked before, see Auth/Access. The unique columns of a mapping or a key stand for
-- its id, and the details of an event are left out.
use open_mdm.Accounts.{
  GroupRoleMapping, Accounts, AccountError, unknown_roles, user_not_found, own_account,
  mapping_exists, mapping_not_found, key_not_found, has_username, has_prefix, audited,
  authenticate_user, ApiKeyCreate, issue_api_key,
}
use open_mdm.Auth.{permissions, authenticate_api_key}
use open_mdm.Base.{
  ℕ, String, Bool, true, false, not, ◌&&◌, Option, none, some, List, [], ◌∷◌, ◌++◌, has_key, keep,
  any, update_where, ◌==◌,
}
use open_mdm.Base.Results.{Result, ok, err, ◌>>=◌, raise_if}
use open_mdm.Base.Text.{text_take}
use open_mdm.Ldap.Directory.{Directory}
use open_mdm.Models.{User, ApiKey, AuditEvent}
use open_mdm.Python.{Python}
use open_mdm.Settings.{Settings}

abbrev pub admin_event : User → String → Option String → AuditEvent
admin_event principal action record_id = record {
  actor = principal.username;
  actor_roles = principal.roles;
  action = action;
  entity_name = none;
  record_id = record_id;
  tier = some "meta";
  detail = [];
  success = true;
}

-- The roles are the keys of the permission matrix.
abbrev pub is_unknown_role : String → Bool
is_unknown_role role = not (has_key role permissions)

abbrev pub with_roles : List String → User → User
with_roles roles u = record u { roles = roles }

unfoldable pub set_user_roles :
    User → String → List String → Accounts → Result AccountError Accounts
set_user_roles principal username roles s = do
  _ ← raise_if (any is_unknown_role roles) unknown_roles
  _ ← raise_if (not (any (has_username username) s.users)) user_not_found
  ok (
      audited (admin_event principal "user_roles_changed" (some username))
        (record s { users = update_where (has_username username) (with_roles roles) s.users }))

abbrev pub with_status : Bool → User → User
with_status is_active u = record u { is_active = is_active }

unfoldable pub set_user_status : User → String → Bool → Accounts → Result AccountError Accounts
set_user_status principal username is_active s = do
  _ ← raise_if (not (any (has_username username) s.users)) user_not_found
  _ ← raise_if (username == principal.username && not is_active) own_account
  ok (
      audited (admin_event principal "user_status_changed" (some username))
        (record s { users = update_where (has_username username) (with_status is_active) s.users }))

abbrev pub is_mapping : String → String → GroupRoleMapping → Bool
is_mapping group_dn role m = m.group_dn == group_dn && m.role == role

unfoldable pub create_group_mapping : String → String → Accounts → Result AccountError Accounts
create_group_mapping group_dn role s = do
  _ ← raise_if (is_unknown_role role) unknown_roles
  _ ← raise_if (any (is_mapping group_dn role) s.mappings) mapping_exists
  ok (record s {
    mappings = s.mappings ++ record { group_dn = group_dn; role = role; is_active = true } ∷ [];
  })

unfoldable pub delete_group_mapping : String → String → Accounts → Result AccountError Accounts
delete_group_mapping group_dn role s = do
  _ ← raise_if (not (any (is_mapping group_dn role) s.mappings)) mapping_not_found
  ok (record s { mappings = keep (λ m. not (is_mapping group_dn role m)) s.mappings })

unfoldable pub create_api_key :
    (String → String) → User → ApiKeyCreate → String → Accounts → Result AccountError Accounts
unfolding issue_api_key
create_api_key sha256 principal p secret s = do
  (raw, keys) ← issue_api_key sha256 p secret s.keys
  ok (
      audited (admin_event principal "apikey_created" (some (text_take 12 raw)))
        (record s { keys = keys }))

abbrev pub as_revoked : ApiKey → ApiKey
as_revoked k = record k { is_active = false }

unfoldable pub revoke_api_key : User → String → Accounts → Result AccountError Accounts
revoke_api_key principal prefix s = do
  _ ← raise_if (not (any (has_prefix prefix) s.keys)) key_not_found
  ok (
      audited (admin_event principal "apikey_revoked" (some prefix))
        (record s { keys = update_where (has_prefix prefix) as_revoked s.keys }))

-- A request to the accounts: a login, a call with a key, or one of an administrator.
pub data AccountRequest : Type 0 where
  log_in : String → String → ℕ → AccountRequest
  call_with_key : String → ℕ → AccountRequest
  change_roles : User → String → List String → AccountRequest
  change_status : User → String → Bool → AccountRequest
  add_mapping drop_mapping : String → String → AccountRequest
  issue : User → ApiKeyCreate → String → AccountRequest
  revoke : User → String → AccountRequest

-- The commit of `get_db`, or its rollback.
abbrev pub settled : Accounts → Result AccountError Accounts → Accounts
settled before (ok s) = s
settled before (err e) = before

abbrev pub attempted : {A : Type 0} → Accounts → Result AccountError A → Accounts → Accounts
attempted before (ok a) after = after
attempted before (err e) after = before

module _ (py : Python) (cfg : Settings) (sha256 : String → String) (verify : String → String → Bool)
    (directory : Directory) where
  unfoldable pub login : String → String → ℕ → Accounts → Accounts
  login username password now s =
      let o = authenticate_user verify py cfg directory username password now s in
      attempted s o.0 o.1

  unfoldable pub handle : AccountRequest → Accounts → Accounts
  unfolding login
  handle (log_in username password now) s = login username password now s
  handle (call_with_key raw now) s = record s {
    keys = (authenticate_api_key sha256 raw now s.keys).1;
  }
  handle (change_roles principal username roles) s =
      settled s (set_user_roles principal username roles s)
  handle (change_status principal username is_active) s =
      settled s (set_user_status principal username is_active s)
  handle (add_mapping group_dn role) s = settled s (create_group_mapping group_dn role s)
  handle (drop_mapping group_dn role) s = settled s (delete_group_mapping group_dn role s)
  handle (issue principal p secret) s = settled s (create_api_key sha256 principal p secret s)
  handle (revoke principal prefix) s = settled s (revoke_api_key principal prefix s)

  unfoldable pub handle_all : List AccountRequest → Accounts → Accounts
  unfolding handle
  handle_all [] s = s
  handle_all (request ∷ requests) s = handle_all requests (handle request s)
