-- ===== src/Auth.antt =====
-- app/services/auth.py and app/api/deps.py: what roles permit, API keys, and who the caller is. The
-- hash of a key and the decoding of a session token are the libraries': parameters.
pub mod Laws
pub mod Session
pub mod Access
use Prim.Native.String
use open_mdm.Base.{
  ℕ, String, Bool, true, false, not, ◌&&◌, ◌||◌, Option, none, some, List, [], ◌∷◌, ◌++◌, map, Dict,
  keep, lookup, has_key, member, update, update_where, find_first, ltb, is_empty, ◌==◌,
  if◌then◌else◌,
}
use open_mdm.Base.Results.{Result, ok, err}
use open_mdm.Base.Text.{is_empty_text, text_take, after_space, strip}
use open_mdm.Models.{User, UserSource, ApiKey}
use open_mdm.Pipeline.Landing.{truthy_text}
use open_mdm.Python.{Python}
use open_mdm.Python.Str.{lower}
use text.Mathlib.Text.{starts_with}

-- The roles that a user can have.
abbrev pub permissions : Dict (List String)
permissions =
    (
      "admin",
      "model:read" ∷ "model:write" ∷ "model:publish" ∷ "model:drop" ∷ "data:read" ∷ "data:write"
          ∷ "staging:read" ∷ "staging:edit" ∷ "staging:approve" ∷ "staging:reject" ∷ "audit:read"
          ∷ "user:manage" ∷ "apikey:manage" ∷ "settings:manage" ∷ "pipeline:run" ∷ [],
    )
    ∷ (
      "steward",
      "model:read" ∷ "data:read" ∷ "data:write" ∷ "staging:read" ∷ "staging:edit"
          ∷ "staging:approve" ∷ "staging:reject" ∷ "audit:read" ∷ "pipeline:run" ∷ [],
    )
    ∷ ("reader", "model:read" ∷ "data:read" ∷ "staging:read" ∷ [])
    ∷ ("service", "data:write" ∷ "model:read" ∷ [])
    ∷ []

-- `PERMISSIONS.get(role, set())`
abbrev pub permissions_of : Option (List String) → List String
permissions_of none = []
permissions_of (some ps) = ps

-- The union of sets, each by the list of its elements.
unfoldable pub permissions_for : List String → List String
permissions_for [] = []
permissions_for (role ∷ roles) = permissions_of (lookup role permissions) ++ permissions_for roles

unfoldable pub has_permission : List String → String → Bool
has_permission roles permission = member permission (permissions_for roles)

abbrev pub is_service : UserSource → Bool
is_service UserSource.service = true
is_service _ = false

-- An override for the entity decides; without one, only a service key is refused.
abbrev pub by_override : User → String → Option (List String) → Bool
by_override user action none = not (is_service user.source)
by_override user action (some actions) = member action actions

unfoldable pub can_access_entity : User → String → String → Bool
can_access_entity user entity_name action =
    if is_empty user.entity_permissions
    then true
    else by_override user action (lookup entity_name user.entity_permissions)

pub data AuthError : Type 0 where
  malformed_key invalid_key expired_key many_keys : AuthError
  not_authenticated invalid_session no_account disabled_account : AuthError

abbrev pub is_expired : Option ℕ → ℕ → Bool
is_expired none now = false
is_expired (some at_time) now = ltb at_time now

-- `{e: ["write"] for e in allowed}`
abbrev pub write_only : List String → Dict (List String)
write_only entities = update [] (map (λ e. (e, "write" ∷ [])) entities)

abbrev pub service_principal : String → ApiKey → User
service_principal username key = record {
  username = username;
  email = none;
  display_name = some key.name;
  source = UserSource.service;
  password_hash = none;
  dn = none;
  roles = "service" ∷ [];
  entity_permissions = write_only key.allowed_entities;
  is_active = true;
  last_login_at = none;
}

abbrev pub as_used : ℕ → ApiKey → ApiKey
as_used now key = record key { last_used_at = some now }

abbrev pub Keys : Type 0 → Type 0
Keys A = Result AuthError A × List ApiKey

-- The active keys with the prefix; the column is unique, and `one_or_none` raises on two.
abbrev pub matching : String → List ApiKey → List ApiKey
matching prefix keys = keep (λ key. key.key_prefix == prefix && key.is_active) keys

unfoldable pub check_key : String → ℕ → List ApiKey → List ApiKey → Keys User
check_key digest now keys [] = (err invalid_key, keys)
check_key digest now keys (key ∷ other ∷ more) = (err many_keys, keys)
check_key digest now keys (key ∷ []) =
    if not (key.key_hash == digest)
    then (err invalid_key, keys)
    else if is_expired key.expires_at now
    then (err expired_key, keys)
    else (
      ok (service_principal (String.◌++◌ "apikey:" key.name) key),
      update_where (λ k. k.key_prefix == key.key_prefix) (as_used now) keys,
    )

module _ (sha256 : String → String) where
  unfoldable pub authenticate_api_key : String → ℕ → List ApiKey → Keys User
  authenticate_api_key raw_key now keys =
      if is_empty_text raw_key || not (starts_with raw_key "mdm_")
      then (err malformed_key, keys)
      else check_key (sha256 raw_key) now keys (matching (text_take 12 raw_key) keys)

  -- The account that a session's token names, as it is in the database now.
  abbrev pub active_account : Option User → Result AuthError User
  active_account none = err no_account
  active_account (some user) = if user.is_active then ok user else err disabled_account

  -- `claims.get("sub")`; no account has the name None.
  abbrev pub account_of : List User → Option String → Option User
  account_of users none = none
  account_of users (some name) = find_first (λ user. user.username == name) users

  module _ (py : Python) (decode : String → Option (Option String)) where
    -- `authorization and authorization.lower().startswith(scheme)`
    abbrev pub has_scheme : String → Option String → Bool
    has_scheme scheme none = false
    has_scheme scheme (some header) = starts_with (lower py header) scheme

    -- `authorization.split(" ", 1)[1].strip()`
    abbrev pub credentials : Option String → Option String
    credentials none = none
    credentials (some header) = some (strip (after_space header))

    abbrev pub raw_key_of : Option String → Option String → Option String
    raw_key_of authorization x_api_key =
        if not (truthy_text x_api_key) && has_scheme "apikey " authorization
        then credentials authorization
        else x_api_key

    abbrev pub token_of : Option String → Option String → Option String
    token_of authorization mdm_session =
        if has_scheme "bearer " authorization then credentials authorization else mdm_session

    abbrev pub by_claims : List User → Option (Option String) → Result AuthError User
    by_claims users none = err invalid_session
    by_claims users (some name) = active_account (account_of users name)

    abbrev pub by_token : List User → Option String → Result AuthError User
    by_token users none = err not_authenticated
    by_token users (some token) =
        if is_empty_text token then err not_authenticated else by_claims users (decode token)

    abbrev pub by_key : ℕ → List ApiKey → Option String → Option (Keys User)
    by_key now keys none = none
    by_key now keys (some raw_key) =
        if is_empty_text raw_key then none else some (authenticate_api_key raw_key now keys)

    abbrev pub or_session : Option (Keys User) → Keys User → Keys User
    or_session none session = session
    or_session (some result) session = result

    -- A key in either header goes first; without one, the session of a bearer token or a cookie.
    unfoldable pub get_current_principal :
        Option String → Option String → Option String → ℕ → List User → List ApiKey → Keys User
    get_current_principal authorization x_api_key mdm_session now users keys =
        or_session (by_key now keys (raw_key_of authorization x_api_key))
          (by_token users (token_of authorization mdm_session), keys)
