-- ===== src/Accounts/Logins.antt =====
-- app/services/auth.py: a login leaves the keys as they are.
use open_mdm.Accounts.{
  Accounts, AccountError, Attempt, upsert_ldap_user, local_outcome, local_login, directory_login,
  by_directory, authenticate_user,
}
use open_mdm.Accounts.Admin.{settled, attempted, login}
use open_mdm.Base.{
  ℕ, String, Bool, true, false, ◌||◌, ◌≡◌, refl, Option, none, some, List, is_empty, if◌then◌else◌,
}
use open_mdm.Base.Results.{Result, ok, err}
use open_mdm.Base.Text.{is_empty_text, strip}
use open_mdm.Ldap.Directory.{
  Directory, DirectoryUser, DirectoryError, ldap_authentication, ldap_unavailable,
  ldap_configuration, ldap_exception,
}
use open_mdm.Models.{User, ApiKey}
use open_mdm.Python.{Python}
use open_mdm.Settings.{Settings}

-- Either branch of a test, whatever the test.
either_keys :
    (b : Bool) (first second : Attempt User) (keys : List ApiKey)
    → first.1.keys ≡ keys
    → second.1.keys ≡ keys
    → (if b then first else second).1.keys ≡ keys
either_keys true first second keys h k = h
either_keys false first second keys h k = k

pub settled_keys :
    (s : Accounts) (r : Result AccountError Accounts)
    → ((s' : Accounts) → r ≡ ok s' → s'.keys ≡ s.keys)
    → (settled s r).keys ≡ s.keys
settled_keys s (ok s') h = h s' refl
settled_keys s (err e) h = refl

attempted_keys :
    (s after : Accounts) (r : Result AccountError User)
    → after.keys ≡ s.keys
    → (attempted s r after).keys ≡ s.keys
attempted_keys s after (ok u) h = h
attempted_keys s after (err e) h = refl

module _ (verify : String → String → Bool) (username password : String) (now : ℕ) where
  local_outcome_keys :
      (o : Option User) (s : Accounts) → (local_outcome verify username now o s).1.keys ≡ s.keys
  local_outcome_keys none s = refl
  local_outcome_keys (some u) s = refl

  local_login_keys : (s : Accounts) → (local_login verify username password now s).1.keys ≡ s.keys
  unfolding local_login
  local_login_keys s = local_outcome_keys _ s

  directory_login_keys :
      (d : DirectoryUser) (s : Accounts) → (directory_login verify username now d s).1.keys ≡ s.keys
  unfolding directory_login
  directory_login_keys d s =
      either_keys (is_empty (upsert_ldap_user d now s.users).0.roles) _ _ s.keys refl refl

  by_directory_keys :
      (r : Result DirectoryError DirectoryUser) (s : Accounts)
      → (by_directory verify username password now r s).1.keys ≡ s.keys
  by_directory_keys (ok d) s = directory_login_keys d s
  by_directory_keys (err ldap_exception) s = refl
  by_directory_keys (err ldap_authentication) s = local_login_keys s
  by_directory_keys (err ldap_unavailable) s = local_login_keys s
  by_directory_keys (err ldap_configuration) s = local_login_keys s

module _ (py : Python) (cfg : Settings) (sha256 : String → String) (verify : String → String → Bool)
    (directory : Directory) where
  pub login_keys :
      (username password : String) (now : ℕ) (s : Accounts)
      → (login py cfg sha256 verify directory username password now s).keys ≡ s.keys
  unfolding login authenticate_user
  login_keys username password now s = attempted_keys s _ _ (
      either_keys (is_empty_text (strip username) || is_empty_text password) _ _ s.keys refl (
        either_keys cfg.ldap_enabled _ _ s.keys
          (by_directory_keys verify (strip username) password now _ s)
          (local_login_keys verify (strip username) password now s)))
