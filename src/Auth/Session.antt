-- ===== src/Auth/Session.antt =====
-- Who `get_current_principal` says that the caller is.
use open_mdm.Auth.{
  AuthError, Keys, authenticate_api_key, active_account, raw_key_of, token_of, by_claims, by_token,
  by_key, or_session, get_current_principal,
}
use open_mdm.Base.{
  ℕ, String, ◌≡◌, refl, sym, ap, ◌∙◌, ◌⊎◌, inl, inr, Bool, true, false, Option, none, some, List,
  find_first, ◌==◌, Bool-cases, if◌then◌else◌,
}
use open_mdm.Base.Results.{ok, err, ok-injective}
use open_mdm.Base.Text.{is_empty_text}
use open_mdm.Models.{User, ApiKey}
use open_mdm.Python.{Python}

-- The caller is the active account that the database has under the name that the token stands for.
abbrev pub IsSession : (String → Option (Option String)) → List User → Option String → User → Type 0
IsSession decode users presented user =
    (token : String) × (presented ≡ some token)
    × (is_empty_text token ≡ false)
    × (name : String) × (decode token ≡ some (some name))
    × (find_first (λ (u : User). u.username == name) users ≡ some user)
    × (user.is_active ≡ true)

module _ (sha256 : String → String) where
  active_account-ok :
      (o : Option User) (user : User)
      → active_account sha256 o ≡ ok user
      → (o ≡ some user) × (user.is_active ≡ true)
  active_account-ok none user h = absurd (cc)
  active_account-ok (some u) user h = go u.is_active refl h
    where
      go :
          (active : Bool)
          → u.is_active ≡ active
          → (if active then ok u else err AuthError.disabled_account) ≡ ok user
          → (some u ≡ some user) × (user.is_active ≡ true)
      go true t h =
          (ap some (ok-injective h), ap (λ (x : User). x.is_active) (sym (ok-injective h)) ∙ t)
      go false t h = absurd (cc)

  module _ (py : Python) (decode : String → Option (Option String)) (users : List User)
      (user : User) where
    by_claims-named :
        (claims : Option (Option String))
        → by_claims sha256 py decode users claims ≡ ok user
        → (name : String) × (claims ≡ some (some name))
          × (find_first (λ (u : User). u.username == name) users ≡ some user)
          × (user.is_active ≡ true)
    by_claims-named none h = absurd (cc)
    by_claims-named (some none) h = absurd (cc)
    by_claims-named (some (some name)) h =
        let (found, active) = active_account-ok _ user h in (name, refl, found, active)

    by_token-IsSession :
        (token : Option String)
        → by_token sha256 py decode users token ≡ ok user
        → IsSession decode users token user
    by_token-IsSession none h = absurd (cc)
    by_token-IsSession (some token) h = elim (Bool-cases (is_empty_text token)) [
      | inl t ↦ absurd (cc (rw t at h))
      | inr f ↦
          let (name, claims, found, active) = by_claims-named (decode token) (rw f at h) in
          (token, refl, f, name, claims, found, active)
    ]

    -- The caller is whoever presents an accepted API key, or else the account that the session
    -- names: a token is presented and decodes to a name, and the caller is the account of that name
    -- as the database has it now, which is active. A session changes no key.
    pub principal_authenticated :
        (authorization x_api_key mdm_session : Option String) (now : ℕ) (keys after : List ApiKey)
        → get_current_principal sha256 py decode authorization x_api_key mdm_session now users keys
          ≡ (ok user, after)
        → ((raw_key : String) × (raw_key_of sha256 py decode authorization x_api_key ≡ some raw_key)
            × (authenticate_api_key sha256 raw_key now keys ≡ (ok user, after)))
          ⊎ (IsSession decode users (token_of sha256 py decode authorization mdm_session) user
              × (after ≡ keys))
    unfolding get_current_principal
    principal_authenticated authorization x_api_key mdm_session now keys after h =
        go (raw_key_of sha256 py decode authorization x_api_key) refl h
      where
        by_session : Keys User
        by_session = (
          by_token sha256 py decode users (token_of sha256 py decode authorization mdm_session),
          keys,
        )

        session :
            by_session ≡ (ok user, after)
            → IsSession decode users (token_of sha256 py decode authorization mdm_session) user
              × (after ≡ keys)
        session h = (
          by_token-IsSession _ (ap (λ (r : Keys User). r.0) h),
          sym (ap (λ (r : Keys User). r.1) h),
        )

        go :
            (o : Option String)
            → raw_key_of sha256 py decode authorization x_api_key ≡ o
            → or_session sha256 py decode (by_key sha256 py decode now keys o) by_session
              ≡ (ok user, after)
            → ((raw_key : String) × (raw_key_of sha256 py decode authorization x_api_key
                  ≡ some raw_key)
                × (authenticate_api_key sha256 raw_key now keys ≡ (ok user, after)))
              ⊎ (IsSession decode users (token_of sha256 py decode authorization mdm_session) user
                  × (after ≡ keys))
        go none e h = inr (session h)
        go (some raw_key) e h = elim (Bool-cases (is_empty_text raw_key)) [
          | inl t ↦ inr (session (rw t at h))
          | inr f ↦ inl (raw_key, e, (rw f at h))
        ]
