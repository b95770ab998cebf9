-- ===== src/Accounts/Revoked.antt =====
-- app/api/v1/admin.py, `revoke_api_key`: a revocation is final.
use open_mdm.Accounts.{
  Accounts, AccountError, has_username, has_prefix, ApiKeyCreate, raw_key, issued, issue_api_key,
  key_not_found, mapping_exists, mapping_not_found, unknown_roles, user_not_found, own_account,
  integrity_error,
}
use open_mdm.Accounts.Admin.{
  is_unknown_role, is_mapping, set_user_roles, set_user_status, create_group_mapping,
  delete_group_mapping, create_api_key, as_revoked, revoke_api_key, AccountRequest, log_in,
  call_with_key, change_roles, change_status, add_mapping, drop_mapping, issue, revoke, handle,
  handle_all,
}
use open_mdm.Accounts.Logins.{settled_keys, login_keys}
use open_mdm.Auth.Laws.{api_key_checked}
use open_mdm.Auth.{matching, check_key, authenticate_api_key, as_used, is_expired}
use open_mdm.Base.{
  ℕ, String, Bool, true, false, not, ◌&&◌, ◌||◌, ◌≡◌, ◌≢◌, refl, sym, ap, ◌∙◌, subst, inl, inr,
  List, [], ◌∷◌, ◌++◌, any, update_where, any-update_where, All, All-append, All-update_where,
  Bool-cases, and_left, and_right, eq_iff, ◌==◌, if◌then◌else◌,
}
use open_mdm.Base.Results.{Result, ok, err, >>=-eq-ok, guarded-ok, ok-injective, raise_if}
use open_mdm.Base.Text.{is_empty_text, text_take}
use open_mdm.Ldap.Directory.{Directory}
use open_mdm.Models.{User, ApiKey}
use open_mdm.Python.{Python}
use open_mdm.Settings.{Settings}
use text.Mathlib.Text.{starts_with}

abbrev pub Inactive : String → ApiKey → Type 0
Inactive prefix k = has_prefix prefix k ≡ true → k.is_active ≡ false

-- There is a key with the prefix, and none is active.
pub record Revoked (prefix : String) (keys : List ApiKey) : Type 0 where
  pub taken : any (has_prefix prefix) keys ≡ true
  pub inactive : All (Inactive prefix) keys

module _ (prefix : String) where
  Revoked-update :
      (p : ApiKey → Bool) (f : ApiKey → ApiKey)
      → ((k : ApiKey) → (f k).key_prefix ≡ k.key_prefix)
      → ((k : ApiKey) → k.is_active ≡ false → (f k).is_active ≡ false)
      → (keys : List ApiKey) → Revoked prefix keys
      → Revoked prefix (update_where p f keys)
  Revoked-update p f same still keys r = record {
    taken =
        any-update_where (has_prefix prefix) p f (λ k. ap (λ x. x == prefix) (same k)) keys
        ∙ r.taken;
    inactive =
        All-update_where (Inactive prefix) p f
          (λ k h t. still k (h (ap (λ x. x == prefix) (sym (same k)) ∙ t))) keys r.inactive;
  }

  any-later :
      (keys more : List ApiKey)
      → any (has_prefix prefix) keys ≡ true
      → any (has_prefix prefix) (keys ++ more) ≡ true
  any-later [] more h = absurd (cc)
  any-later (k ∷ keys) more h = elim (Bool-cases (has_prefix prefix k)) [
    | inl t ↦ rw t refl
    | inr f ↦ rw f (any-later keys more (rw f at h))
  ]

  -- A key of the same prefix is refused by the database.
  issue-Revoked :
      (sha256 : String → String) (p : ApiKeyCreate) (secret : String) (keys : List ApiKey)
      (raw : String) (keys' : List ApiKey)
      → Revoked prefix keys
      → issue_api_key sha256 p secret keys ≡ ok (raw, keys')
      → Revoked prefix keys'
  unfolding issue_api_key
  issue-Revoked sha256 p secret keys raw keys' r h =
      let (fresh, e) =
        guarded-ok (any (has_prefix (text_take 12 (raw_key secret))) keys) integrity_error _ h in
      subst (Revoked prefix) (ap (λ (x : String × List ApiKey). x.1) (ok-injective e)) (record {
        taken = any-later keys (issued sha256 p (raw_key secret) ∷ []) r.taken;
        inactive =
            All-append (Inactive prefix) keys (issued sha256 p (raw_key secret) ∷ []) r.inactive (
              (λ t. absurd (
                  cc (
                    subst (λ x. any (has_prefix x) keys ≡ false)
                        ((eq_iff (text_take 12 (raw_key secret)) prefix).0 t) fresh,
                    r.taken,
                  ))),
              tt,
            );
      })

  check_key-Revoked :
      (digest : String) (now : ℕ) (keys found : List ApiKey)
      → Revoked prefix keys
      → Revoked prefix (check_key digest now keys found).1
  unfolding check_key
  check_key-Revoked digest now keys [] r = r
  check_key-Revoked digest now keys (k ∷ other ∷ more) r = r
  check_key-Revoked digest now keys (k ∷ []) r = elim (Bool-cases (k.key_hash == digest)) [
    | inr f ↦ rw (check_key, f) r
    | inl t ↦ elim (Bool-cases (is_expired k.expires_at now)) [
      | inl old ↦ rw (check_key, t, old) r
      | inr new ↦
          rw (check_key, t, new)
            (Revoked-update (λ x. x.key_prefix == k.key_prefix) (as_used now) (λ x. refl) (λ x h. h)
              keys r)
    ]
  ]

  call-Revoked :
      (sha256 : String → String) (raw : String) (now : ℕ) (keys : List ApiKey)
      → Revoked prefix keys
      → Revoked prefix (authenticate_api_key sha256 raw now keys).1
  unfolding authenticate_api_key
  call-Revoked sha256 raw now keys r =
      elim (Bool-cases (is_empty_text raw || not (starts_with raw "mdm_"))) [
        | inl t ↦ rw (authenticate_api_key, t) r
        | inr f ↦
            rw (authenticate_api_key, f)
              (check_key-Revoked (sha256 raw) now keys (matching (text_take 12 raw) keys) r)
      ]

  no_match : (keys : List ApiKey) → All (Inactive prefix) keys → matching prefix keys ≡ []
  no_match [] h = refl
  no_match (k ∷ keys) (h, hs) = elim (Bool-cases (k.key_prefix == prefix && k.is_active)) [
    | inr f ↦ rw f (no_match keys hs)
    | inl t ↦ absurd (
        cc (
          and_right (k.key_prefix == prefix) k.is_active t,
          h (and_left (k.key_prefix == prefix) k.is_active t),
        ))
  ]

revoke-All :
    (prefix : String) (keys : List ApiKey)
    → All (Inactive prefix) (update_where (has_prefix prefix) as_revoked keys)
revoke-All prefix [] = tt
revoke-All prefix (k ∷ keys) = (choose (k.key_prefix == prefix) refl, revoke-All prefix keys)
  where
    choose :
        (b : Bool) → (k.key_prefix == prefix) ≡ b → Inactive prefix (if b then as_revoked k else k)
    choose true e t = refl
    choose false e t = absurd (cc)

module _ (py : Python) (cfg : Settings) (sha256 : String → String) (verify : String → String → Bool)
    (directory : Directory) where
  handle-Revoked :
      (prefix : String) (request : AccountRequest) (s : Accounts)
      → Revoked prefix s.keys
      → Revoked prefix (handle py cfg sha256 verify directory request s).keys
  unfolding handle set_user_roles set_user_status create_group_mapping delete_group_mapping
      create_api_key revoke_api_key
  handle-Revoked prefix (log_in username password now) s r =
      subst (Revoked prefix)
        (sym (login_keys py cfg sha256 verify directory username password now s)) r
  handle-Revoked prefix (call_with_key raw now) s r = call-Revoked prefix sha256 raw now s.keys r
  handle-Revoked prefix (change_roles principal username roles) s r =
      subst (Revoked prefix)
        (sym (
          settled_keys s (set_user_roles principal username roles s) (λ s' h.
            let (_, _, h1) = >>=-eq-ok (raise_if (any is_unknown_role roles) unknown_roles) _ h in
            let (_, _, h2) =
              >>=-eq-ok (raise_if (not (any (has_username username) s.users)) user_not_found) _
                h1 in
            sym (ap (λ (x : Accounts). x.keys) (ok-injective h2)))))
        r
  handle-Revoked prefix (change_status principal username is_active) s r =
      subst (Revoked prefix)
        (sym (
          settled_keys s (set_user_status principal username is_active s) (λ s' h.
            let (_, _, h1) =
              >>=-eq-ok (raise_if (not (any (has_username username) s.users)) user_not_found) _ h in
            let (_, _, h2) =
              >>=-eq-ok (raise_if (username == principal.username && not is_active) own_account) _
                h1 in
            sym (ap (λ (x : Accounts). x.keys) (ok-injective h2)))))
        r
  handle-Revoked prefix (add_mapping group_dn role) s r =
      subst (Revoked prefix)
        (sym (
          settled_keys s (create_group_mapping group_dn role s) (λ s' h.
            let (_, _, h1) = >>=-eq-ok (raise_if (is_unknown_role role) unknown_roles) _ h in
            let (_, _, h2) =
              >>=-eq-ok (raise_if (any (is_mapping group_dn role) s.mappings) mapping_exists) _
                h1 in
            sym (ap (λ (x : Accounts). x.keys) (ok-injective h2)))))
        r
  handle-Revoked prefix (drop_mapping group_dn role) s r =
      subst (Revoked prefix)
        (sym (
          settled_keys s (delete_group_mapping group_dn role s) (λ s' h.
            let (_, _, h1) =
              >>=-eq-ok
                (raise_if (not (any (is_mapping group_dn role) s.mappings)) mapping_not_found) _
                h in
            sym (ap (λ (x : Accounts). x.keys) (ok-injective h1)))))
        r
  handle-Revoked prefix (issue principal p secret) s r =
      go (issue_api_key sha256 p secret s.keys) refl
    where
      go :
          (o : Result AccountError (String × List ApiKey))
          → issue_api_key sha256 p secret s.keys ≡ o
          → Revoked prefix (handle py cfg sha256 verify directory (issue principal p secret) s).keys
      go (err e) h = rw (create_api_key, h) r
      go (ok (raw, keys)) h =
          rw (create_api_key, h) (issue-Revoked prefix sha256 p secret s.keys raw keys r h)
  handle-Revoked prefix (revoke principal other) s r =
      elim (Bool-cases (any (has_prefix other) s.keys)) [
        | inr f ↦ rw (revoke_api_key, f) r
        | inl t ↦
            rw (revoke_api_key, t)
              (Revoked-update prefix (has_prefix other) as_revoked (λ x. refl) (λ x h. refl) s.keys
                r)
      ]

  handle_all-Revoked :
      (prefix : String) (requests : List AccountRequest) (s : Accounts)
      → Revoked prefix s.keys
      → Revoked prefix (handle_all py cfg sha256 verify directory requests s).keys
  unfolding handle_all
  handle_all-Revoked prefix [] s r = r
  handle_all-Revoked prefix (request ∷ requests) s r =
      handle_all-Revoked prefix requests _ (handle-Revoked prefix request s r)

  -- Once a key is revoked, no key with its first twelve characters is ever accepted again, whatever
  -- requests follow: there is no way to activate it, and none to issue another with these.
  pub revocation_final :
      (principal user : User) (raw : String) (s s' : Accounts) (requests : List AccountRequest)
      (now : ℕ)
      → revoke_api_key principal (text_take 12 raw) s ≡ ok s'
      → (authenticate_api_key sha256 raw now
          (handle_all py cfg sha256 verify directory requests s').keys).0
        ≢ ok user
  unfolding revoke_api_key
  revocation_final principal user raw s s' requests now h k =
      let prefix = text_take 12 raw in
      let (_, found, h1) =
        >>=-eq-ok (raise_if (not (any (has_prefix prefix) s.keys)) key_not_found) _ h in
      let start : Revoked prefix s'.keys =
        subst (Revoked prefix) (ap (λ (x : Accounts). x.keys) (ok-injective h1)) (record {
          taken =
              any-update_where (has_prefix prefix) (has_prefix prefix) as_revoked (λ x. refl) s.keys
              ∙ raised (any (has_prefix prefix) s.keys) found;
          inactive = revoke-All prefix s.keys;
        }) in
      let keys = (handle_all py cfg sha256 verify directory requests s').keys in
      let after = (authenticate_api_key sha256 raw now keys).1 in
      let accepted = api_key_checked sha256 raw now keys user after (ap (λ r. (r, after)) k) in
      no_active (no_match prefix keys (handle_all-Revoked prefix requests s' start).inactive)
        accepted.only
    where
      no_active : {ks : List ApiKey} {key : ApiKey} → ks ≡ [] → ks ≡ key ∷ [] → ⊥
      no_active e f = absurd (cc)

      raised : (b : Bool) → raise_if (not b) key_not_found ≡ ok tt → b ≡ true
      raised true e = refl
      raised false e = absurd (cc)
