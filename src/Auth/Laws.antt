-- ===== src/Auth/Laws.antt =====
-- What a role, a key and a session give, and what they do not.
use Prim.Native.String
use open_mdm.Base.{
  lookup-insert, ℕ, String, ◌≡◌, refl, sym, ap, ◌∙◌, ◌⊎◌, inl, inr, Bool, true, false, ◌||◌, Option,
  none, some, List, [], ◌∷◌, ◌++◌, map, Dict, lookup, member, insert, update, is_empty, ◌==◌,
  eq_iff, Bool-cases, if◌then◌else◌,
}
use open_mdm.Base.Results.{ok, ok-injective}
use open_mdm.Base.Text.{is_empty_text, text_take}
use open_mdm.Models.{User, UserSource, ApiKey}
use open_mdm.Auth.{
  permissions, permissions_of, permissions_for, has_permission, by_override, can_access_entity,
  is_expired, write_only, service_principal, Keys, matching, check_key, authenticate_api_key,
}
use text.Mathlib.Text.{starts_with}

member-append :
    (x : String) (xs ys : List String) → member x (xs ++ ys) ≡ (member x xs || member x ys)
member-append x [] ys = refl
member-append x (y ∷ xs) ys = elim (Bool-cases (y == x)) [
  | inl t ↦ rw t
  | inr f ↦ rw f (member-append x xs ys)
]

or_assoc : (a b c : Bool) → (a || (b || c)) ≡ ((a || b) || c)
or_assoc true b c = refl
or_assoc false b c = refl

-- A user may do what one of the roles permits, and nothing else: the permissions of a list of roles
-- and another are those of either.
pub has_permission-append :
    (roles more : List String) (permission : String)
    → has_permission (roles ++ more) permission
      ≡ (has_permission roles permission || has_permission more permission)
unfolding has_permission permissions_for
has_permission-append [] more permission = refl
has_permission-append (role ∷ roles) more permission =
    member-append permission (permissions_of (lookup role permissions))
      (permissions_for (roles ++ more))
    ∙ (ap (λ b. member permission (permissions_of (lookup role permissions)) || b)
          (has_permission-append roles more permission)
        ∙ (or_assoc (member permission (permissions_of (lookup role permissions)))
              (has_permission roles permission) (has_permission more permission)
            ∙ ap (λ b. b || has_permission more permission)
                (sym (
                  member-append permission (permissions_of (lookup role permissions))
                    (permissions_for roles)))))

write_each : List String → Dict (List String)
write_each = map (λ e. (e, "write" ∷ []))

lookup-update_each :
    (entity : String) (entities : List String) (d : Dict (List String))
    → lookup entity (update d (write_each entities))
      ≡ (if member entity entities then some ("write" ∷ []) else lookup entity d)
unfolding write_each
lookup-update_each entity [] d = refl
lookup-update_each entity (e ∷ entities) d =
    lookup-update_each entity entities (insert e ("write" ∷ []) d)
    ∙ (ap (λ o. if member entity entities then some ("write" ∷ []) else o)
          (lookup-insert e entity ("write" ∷ []) d)
        ∙ either_way (e == entity) (member entity entities) (lookup entity d))
  where
    either_way :
        (here later : Bool) (o : Option (List String))
        → (if later then some ("write" ∷ []) else (if here then some ("write" ∷ []) else o))
          ≡ (if here || later then some ("write" ∷ []) else o)
    either_way true true o = refl
    either_way true false o = refl
    either_way false later o = refl

is_empty-insert :
    (k : String) (v : List String) (d : Dict (List String)) → is_empty (insert k v d) ≡ false
is_empty-insert k v [] = refl
is_empty-insert k v ((j, w) ∷ d) = elim (Bool-cases (j == k)) [ inl t ↦ rw t | inr f ↦ rw f ]

is_empty-update_each :
    (entities : List String) (d : Dict (List String))
    → is_empty d ≡ false
    → is_empty (update d (write_each entities)) ≡ false
unfolding write_each
is_empty-update_each [] d h = h
is_empty-update_each (e ∷ entities) d h =
    is_empty-update_each entities (insert e ("write" ∷ []) d) (is_empty-insert e ("write" ∷ []) d)

-- What an accepted key was checked for, and who calls with it.
pub record Accepted (sha256 : String → String) (raw_key : String) (now : ℕ) (keys : List ApiKey)
    (user : User) : Type 0 where
  pub key : ApiKey
  pub prefixed : starts_with raw_key "mdm_" ≡ true
  pub only : matching (text_take 12 raw_key) keys ≡ key ∷ []
  pub hashed : key.key_hash ≡ sha256 raw_key
  pub current : is_expired key.expires_at now ≡ false
  pub roles : user.roles ≡ "service" ∷ []
  pub service : user.source ≡ UserSource.service
  pub active : user.is_active ≡ true
  pub scope : user.entity_permissions ≡ write_only key.allowed_entities

module _ (sha256 : String → String) (raw_key : String) (now : ℕ) (keys : List ApiKey) (user : User)
    (after : List ApiKey) where
  check_key-ok :
      (found : List ApiKey)
      → starts_with raw_key "mdm_" ≡ true
      → matching (text_take 12 raw_key) keys ≡ found
      → check_key (sha256 raw_key) now keys found ≡ (ok user, after)
      → Accepted sha256 raw_key now keys user
  unfolding check_key
  check_key-ok [] p m h = absurd (cc)
  check_key-ok (key ∷ other ∷ more) p m h = absurd (cc)
  check_key-ok (key ∷ []) p m h = elim (Bool-cases (key.key_hash == sha256 raw_key)) [
    | inr f ↦ absurd (cc (rw f at h))
    | inl t ↦ elim (Bool-cases (is_expired key.expires_at now)) [
      | inl old ↦ absurd (cc (rw (t, old) at h))
      | inr current ↦
          let same : service_principal (String.◌++◌ "apikey:" key.name) key ≡ user =
            ok-injective (ap (λ (r : Keys User). r.0) (rw (t, current) at h)) in
          record {
            key = key;
            prefixed = p;
            only = m;
            hashed = (eq_iff key.key_hash (sha256 raw_key)).0 t;
            current = current;
            roles = sym (ap (λ (u : User). u.roles) same);
            service = sym (ap (λ (u : User). u.source) same);
            active = sym (ap (λ (u : User). u.is_active) same);
            scope = sym (ap (λ (u : User). u.entity_permissions) same);
          }
    ]
  ]

  -- A key is accepted only if it has the platform's prefix, exactly one active key has its first
  -- twelve characters, that one has its hash and has not expired; and the caller is then a service
  -- with the service role alone, scoped to the entities that the key allows.
  pub api_key_checked :
      authenticate_api_key sha256 raw_key now keys ≡ (ok user, after)
      → Accepted sha256 raw_key now keys user
  unfolding authenticate_api_key
  api_key_checked h = elim (Bool-cases (is_empty_text raw_key)) [
    | inl e ↦ absurd (cc (rw e at h))
    | inr e ↦ elim (Bool-cases (starts_with raw_key "mdm_")) [
      | inr f ↦ absurd (cc (rw (e, f) at h))
      | inl t ↦ check_key-ok (matching (text_take 12 raw_key) keys) t refl (rw (e, t) at h)
    ]
  ]

  -- A caller with an API key can deposit data and read models, and nothing else: approving, editing
  -- and publishing are not among its permissions.
  pub api_key_only_deposits :
      (permission : String)
      → authenticate_api_key sha256 raw_key now keys ≡ (ok user, after)
      → has_permission user.roles permission ≡ true
      → (permission ≡ "data:write") ⊎ (permission ≡ "model:read")
  unfolding has_permission permissions_for
  api_key_only_deposits permission h p = either_of permission (rw (api_key_checked h).roles at p)
    where
      either_of :
          (permission : String)
          → has_permission ("service" ∷ []) permission ≡ true
          → (permission ≡ "data:write") ⊎ (permission ≡ "model:read")
      either_of permission p = elim (Bool-cases ("data:write" == permission)) [
        | inl t ↦ inl (sym ((eq_iff "data:write" permission).0 t))
        | inr f ↦ elim (Bool-cases ("model:read" == permission)) [
          | inl t ↦ inr (sym ((eq_iff "model:read" permission).0 t))
          | inr g ↦ absurd (cc (rw (f, g) at p))
        ]
      ]

writes :
    (named : Bool) (action : String) (user : User)
    → user.source ≡ UserSource.service
    → by_override user action (if named then some ("write" ∷ []) else none) ≡ true
    → (named ≡ true) × (action ≡ "write")
writes false action user service h = absurd (cc (rw service at h))
writes true action user service h = elim (Bool-cases ("write" == action)) [
  | inl t ↦ (refl, sym ((eq_iff "write" action).0 t))
  | inr f ↦ absurd (cc (rw f at h))
]

-- A key that allows some entities gives access to these only, and only to write; a key that allows
-- none by name is not limited to entities.
pub api_key_scope :
    (sha256 : String → String) (raw_key : String) (now : ℕ) (keys : List ApiKey) (user : User)
    (after : List ApiKey) (entity action : String)
    → authenticate_api_key sha256 raw_key now keys ≡ (ok user, after)
    → can_access_entity user entity action ≡ true
    → (key : ApiKey) × (matching (text_take 12 raw_key) keys ≡ key ∷ [])
      × ((key.allowed_entities ≡ [])
          ⊎ ((member entity key.allowed_entities ≡ true) × (action ≡ "write")))
unfolding can_access_entity write_each
api_key_scope sha256 raw_key now keys user after entity action h access =
    let a = api_key_checked sha256 raw_key now keys user after h in
    (a.key, a.only, limits a.key.allowed_entities a.service a.scope access)
  where
    overridden :
        is_empty user.entity_permissions ≡ false
        → can_access_entity user entity action ≡ true
        → by_override user action (lookup entity user.entity_permissions) ≡ true
    overridden some_scope access = rw some_scope at access

    limits :
        (entities : List String)
        → user.source ≡ UserSource.service
        → user.entity_permissions ≡ write_only entities
        → can_access_entity user entity action ≡ true
        → (entities ≡ []) ⊎ ((member entity entities ≡ true) × (action ≡ "write"))
    limits [] service scope access = inl refl
    limits (e ∷ entities) service scope access = inr (
        writes (member entity (e ∷ entities)) action user service (
          ap (by_override user action)
            (sym (ap (lookup entity) scope ∙ lookup-update_each entity (e ∷ entities) []))
          ∙ overridden
              (ap is_empty scope ∙ is_empty-update_each entities ((e, "write" ∷ []) ∷ []) refl)
              access))
