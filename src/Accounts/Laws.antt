-- ===== src/Accounts/Laws.antt =====
-- app/services/auth.py: who can log in, and what an issued key is good for.
use Prim.Native.String
use open_mdm.Accounts.{
  Accounts, Attempt, load_group_mappings, has_username, synced, upsert_ldap_user, as_logged_in,
  is_local_user, verify_password, local_login, directory_login, by_directory, authenticate_user,
  ApiKeyCreate,
}
use open_mdm.Base.{
  ℕ, String, Bool, true, false, ◌&&◌, ◌||◌, ◌≡◌, refl, sym, ap, ◌∙◌, ◌⊎◌, inl, inr, none, some, [],
  ◌∷◌, ◌++◌, find_first, is_empty, update, map, Bool-cases, Option-cases, or_right, and_left,
  and_right, if◌then◌else◌,
}
use open_mdm.Base.Results.{ok, err, ok-injective, Result-cases}
use open_mdm.Base.Text.{is_empty_text, text_take, strip}
use open_mdm.Ldap.Directory.{
  Directory, DirectoryUser, DirectoryError, ldap_authentication, ldap_unavailable,
  ldap_configuration, ldap_exception, authenticate,
}
use open_mdm.Models.{UserSource, User, ApiKey}
use open_mdm.Python.{Python}
use open_mdm.Settings.{Settings}

either_way :
    (b : Bool) (first second : Attempt User) {u : User}
    → (if b then first else second).0 ≡ ok u
    → ((b ≡ true) × (first.0 ≡ ok u)) ⊎ (second.0 ≡ ok u)
either_way true first second h = inl (refl, h)
either_way false first second h = inr h

module _ (verify : String → String → Bool) (py : Python) (cfg : Settings) (directory : Directory)
    (password : String) (now : ℕ) (s : Accounts) where
  -- Why a login is granted: the directory accepts it and gives a role, or it refuses it, or is not
  -- used, and there is an active local account with the password.
  pub data Granted (username : String) (user : User) : Type 0 where
    by_groups :
        (d : DirectoryUser)
        → cfg.ldap_enabled ≡ true
        → authenticate py cfg directory username password (load_group_mappings s.mappings) ≡ ok d
        → is_empty d.roles ≡ false
        → user.roles ≡ d.roles
        → user.is_active ≡ true
        → Granted username user
    by_password :
        (u : User)
        → find_first (is_local_user username) s.users ≡ some u
        → u.is_active ≡ true
        → verify_password verify password u.password_hash ≡ true
        → user ≡ as_logged_in now u
        → Granted username user

  local_login-Granted :
      (username : String) (user : User)
      → (local_login verify username password now s).0 ≡ ok user
      → Granted username user
  unfolding local_login
  local_login-Granted username user h =
      elim (Option-cases (find_first (is_local_user username) s.users)) [
        | inl none' ↦ absurd (cc (rw (local_login, none') at h))
        | inr (u, found) ↦
            elim (Bool-cases (u.is_active && verify_password verify password u.password_hash)) [
              | inr f ↦ absurd (cc (rw (local_login, found, f) at h))
              | inl t ↦
                  by_password u found
                    (and_left u.is_active (verify_password verify password u.password_hash) t)
                    (and_right u.is_active (verify_password verify password u.password_hash) t)
                    (sym (ok-injective (rw (local_login, found, t) at h)))
            ]
      ]

  upserted :
      (d : DirectoryUser)
      → ((upsert_ldap_user d now s.users).0.roles ≡ d.roles)
        × ((upsert_ldap_user d now s.users).0.is_active ≡ true)
  unfolding upsert_ldap_user synced
  upserted d = elim (Option-cases (find_first (has_username d.username) s.users)) [
    | inl none' ↦ rw (upsert_ldap_user, none') (refl, refl)
    | inr (u, found) ↦ rw (upsert_ldap_user, found) (refl, refl)
  ]

  directory_login-Granted :
      (username : String) (d : DirectoryUser) (user : User)
      → cfg.ldap_enabled ≡ true
      → authenticate py cfg directory username password (load_group_mappings s.mappings) ≡ ok d
      → (directory_login verify username now d s).0 ≡ ok user
      → Granted username user
  unfolding directory_login
  directory_login-Granted username d user on accepted h =
      let (roles, active) = upserted d in
      elim (Bool-cases (is_empty (upsert_ldap_user d now s.users).0.roles)) [
        | inl t ↦ absurd (cc (rw (directory_login, t) at h))
        | inr f ↦
            let same = ok-injective (rw (directory_login, f) at h) in
            by_groups d on accepted (rw roles at f) (sym (ap (λ (x : User). x.roles) same) ∙ roles)
              (sym (ap (λ (x : User). x.is_active) same) ∙ active)
      ]

  refused-Granted :
      (username : String) (e : DirectoryError) (user : User)
      → (by_directory verify username password now (err e) s).0 ≡ ok user
      → Granted username user
  refused-Granted username ldap_exception user h = absurd (cc)
  refused-Granted username ldap_authentication user h = local_login-Granted username user h
  refused-Granted username ldap_unavailable user h = local_login-Granted username user h
  refused-Granted username ldap_configuration user h = local_login-Granted username user h

  -- A login succeeds only with a password that is not empty, and for a name, less surrounding
  -- spaces, that the directory accepts and whose groups give it a role, or that has a local account
  -- which is active and has the password. The directory's groups decide the roles, and an account
  -- that the directory accepts is active again, whatever it was before.
  pub login-Granted :
      (username : String) (user : User)
      → (authenticate_user verify py cfg directory username password now s).0 ≡ ok user
      → (is_empty_text password ≡ false) × Granted (strip username) user
  unfolding authenticate_user
  login-Granted username user h =
      elim (Bool-cases (is_empty_text (strip username) || is_empty_text password)) [
        | inl t ↦ absurd (cc (rw (authenticate_user, t) at h))
        | inr f ↦ (
          or_right (is_empty_text (strip username)) (is_empty_text password) f,
          elim (either_way cfg.ldap_enabled _ _ (rw (authenticate_user, f) at h)) [
            | inr h1 ↦ local_login-Granted (strip username) user h1
            | inl (on, h1) ↦
                elim (Result-cases (
                  authenticate py cfg directory (strip username) password
                    (load_group_mappings s.mappings))) [
                      | inl (d, accepted) ↦
                          directory_login-Granted (strip username) d user on accepted
                            (rw accepted at h1)
                      | inr (e, refused) ↦
                          refused-Granted (strip username) e user (rw refused at h1)
                    ]
          ],
        )
      ]

-- The row of a key that was asked for and then used, field by field.
abbrev pub used_key : (String → String) → ApiKeyCreate → String → ℕ → ApiKey
used_key sha256 p raw now = record {
  name = p.name;
  key_prefix = text_take 12 raw;
  key_hash = sha256 raw;
  source_system = p.source_system;
  allowed_entities = p.allowed_entities;
  is_active = true;
  expires_at = p.expires_at;
  last_used_at = some now;
}

-- Who calls with it: a service that may write the entities that were asked for.
abbrev pub key_caller : ApiKeyCreate → User
key_caller p = record {
  username = String.◌++◌ "apikey:" p.name;
  email = none;
  display_name = some p.name;
  source = UserSource.service;
  password_hash = none;
  dn = none;
  roles = "service" ∷ [];
  entity_permissions = update [] (map (λ e. (e, "write" ∷ [])) p.allowed_entities);
  is_active = true;
  last_login_at = none;
}
