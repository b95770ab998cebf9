-- ===== src/Accounts/Failed.antt =====
-- app/services/auth.py and app/api/v1/auth.py: what remains of a login that fails.
use open_mdm.Accounts.{
  Accounts, invalid_credentials, Attempt, load_group_mappings, upsert_ldap_user, login_event,
  audited, local_outcome, local_login, directory_login, by_directory, authenticate_user,
}
use open_mdm.Accounts.Admin.{login, attempted}
use open_mdm.Base.{
  ℕ, String, Bool, true, false, ◌||◌, ◌≡◌, refl, ap, Option, none, some, is_empty, if◌then◌else◌,
}
use open_mdm.Base.Results.{Result, ok, err}
use open_mdm.Base.Text.{is_empty_text, strip}
use open_mdm.Ldap.Directory.{
  Directory, DirectoryUser, DirectoryError, ldap_authentication, ldap_unavailable,
  ldap_configuration, ldap_exception, authenticate,
}
use open_mdm.Models.{User}
use open_mdm.Python.{Python}
use open_mdm.Settings.{Settings}

-- If an attempt is refused for its credentials, it ends in `after`.
abbrev Refused : Accounts → Attempt User → Type 0
Refused after o = o.0 ≡ err invalid_credentials → o.1 ≡ after

either_Refused :
    (b : Bool) (first second : Attempt User) (after : Accounts)
    → Refused after first
    → Refused after second
    → Refused after (if b then first else second)
either_Refused true first second after h k = h
either_Refused false first second after h k = k

module _ (verify : String → String → Bool) (username password : String) (now : ℕ)
    (s : Accounts) where
  abbrev failed : Accounts
  failed = audited (login_event username "login_failed" false) s

  local_outcome-Refused : (o : Option User) → Refused failed (local_outcome verify username now o s)
  local_outcome-Refused none h = refl
  local_outcome-Refused (some u) h = absurd (cc)

  local_login-Refused : Refused failed (local_login verify username password now s)
  unfolding local_login
  local_login-Refused h = local_outcome-Refused _ h

  directory_login-Refused :
      (d : DirectoryUser) → Refused failed (directory_login verify username now d s)
  unfolding directory_login
  directory_login-Refused d =
      either_Refused (is_empty (upsert_ldap_user d now s.users).0.roles) _ _ failed
        (λ h. absurd (cc)) (λ h. absurd (cc))

  by_directory-Refused :
      (r : Result DirectoryError DirectoryUser)
      → Refused failed (by_directory verify username password now r s)
  by_directory-Refused (ok d) h = directory_login-Refused d h
  by_directory-Refused (err ldap_exception) h = absurd (cc)
  by_directory-Refused (err ldap_authentication) h = local_login-Refused h
  by_directory-Refused (err ldap_unavailable) h = local_login-Refused h
  by_directory-Refused (err ldap_configuration) h = local_login-Refused h

-- A login that is refused for its credentials adds an audit event of the failure, and nothing else;
-- but the endpoint turns the refusal into an exception, so that the transaction is rolled back and
-- the event is lost: nothing remains of the login.
pub failed_login_unrecorded :
    (verify : String → String → Bool) (py : Python) (cfg : Settings) (directory : Directory)
    (sha256 : String → String) (username password : String) (now : ℕ) (s : Accounts)
    → (authenticate_user verify py cfg directory username password now s).0
      ≡ err invalid_credentials
    → ((authenticate_user verify py cfg directory username password now s).1
        ≡ audited (login_event (strip username) "login_failed" false) s)
      × (login py cfg sha256 verify directory username password now s ≡ s)
unfolding authenticate_user login
failed_login_unrecorded verify py cfg directory sha256 username password now s h = (
  either_Refused (is_empty_text (strip username) || is_empty_text password) _ _
      (failed verify (strip username) password now s) (λ k. absurd (cc))
      (either_Refused cfg.ldap_enabled _ _ (failed verify (strip username) password now s)
        (by_directory-Refused verify (strip username) password now s (
          authenticate py cfg directory (strip username) password (load_group_mappings s.mappings)))
        (local_login-Refused verify (strip username) password now s))
      h,
  ap (λ r. attempted s r (authenticate_user verify py cfg directory username password now s).1) h,
)
