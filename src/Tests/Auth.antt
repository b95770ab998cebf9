-- ===== src/Tests/Auth.antt =====
-- Witnesses for permissions, API keys and sessions.
use open_mdm.Base.{String, ◌≡◌, refl, ◌⊎◌, true, Option, none, some, List, [], ◌∷◌}
use open_mdm.Base.Results.{ok}
use open_mdm.Auth.{
  AuthError, Keys, has_permission, matching, authenticate_api_key, service_principal, as_used,
  raw_key_of, token_of,
}
use open_mdm.Auth.Laws.{Accepted, api_key_checked, api_key_only_deposits}
use open_mdm.Auth.Session.{IsSession, principal_authenticated}
use open_mdm.Models.{User, ApiKey}
use open_mdm.Tests.Fixtures.{py}

-- A hash that hides nothing.
abbrev sha256 : String → String
sha256 s = s

abbrev raw_key : String
raw_key = "mdm_abcdefgh1234"

abbrev crm_key : ApiKey
crm_key = record {
  name = "crm";
  key_prefix = "mdm_abcdefgh";
  key_hash = raw_key;
  source_system = none;
  allowed_entities = "supplier" ∷ [];
  is_active = true;
  expires_at = some 200;
  last_used_at = none;
}

abbrev crm : User
crm = service_principal "apikey:crm" crm_key

abbrev deposit : String
deposit = "data:write"

abbrev writing : String
writing = "write"

api_key_checked_example : Accepted sha256 raw_key 100 (crm_key ∷ []) crm
unfolding authenticate_api_key open_mdm.Auth.check_key
api_key_checked_example =
    api_key_checked sha256 raw_key 100 (crm_key ∷ []) crm (as_used 100 crm_key ∷ []) refl

api_key_only_deposits_example : (deposit ≡ "data:write") ⊎ (deposit ≡ "model:read")
unfolding authenticate_api_key open_mdm.Auth.check_key has_permission open_mdm.Auth.permissions_for
api_key_only_deposits_example =
    api_key_only_deposits sha256 raw_key 100 (crm_key ∷ []) crm (as_used 100 crm_key ∷ []) deposit
      refl refl

-- The token is the name.
abbrev decode : String → Option (Option String)
decode token = some (some token)

abbrev ann : User
ann = record crm { username = "ann" }

abbrev no_keys : List ApiKey
no_keys = []

principal_authenticated_example :
    ((k : String) × (raw_key_of sha256 py decode none none ≡ some k)
      × (authenticate_api_key sha256 k 100 [] ≡ (ok ann, [])))
    ⊎ (IsSession decode (ann ∷ []) (token_of sha256 py decode none (some "ann")) ann
        × (no_keys ≡ []))
unfolding open_mdm.Auth.get_current_principal
principal_authenticated_example =
    principal_authenticated sha256 py decode (ann ∷ []) ann none none (some "ann") 100 [] [] refl
