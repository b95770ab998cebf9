-- ===== src/Ldap/Login.antt =====
-- app/services/ldap_auth.py, `authenticate`: what an accepted login was checked for.
use open_mdm.Base.{
  String, Bool, true, false, not, ◌||◌, ◌≡◌, refl, sym, ap, ◌∙◌, Option, none, some, Dict, or_right,
}
use open_mdm.Base.Results.{Result, ok, err, >>=-eq-ok, guarded-ok, ok-injective}
use open_mdm.Base.Text.{is_empty_text}
use open_mdm.Ldap.{escape_filter, map_roles}
use open_mdm.Ldap.Directory.{
  LdapException, socket_open, bind_error, other_exception, ldap_authentication, ldap_configuration,
  DirectoryEntry, Directory, DirectoryUser, service_failed, user_failed, found_entry, find_user,
  directory_user, authenticate,
}
use open_mdm.Python.{Python}
use open_mdm.Settings.{Settings}

-- The directory has an entry for the escaped name, and takes its DN with the password, which is
-- not empty, so that the bind is not anonymous. The roles are those of the groups.
pub record Bound (py : Python) (cfg : Settings) (directory : Directory) (username password : String)
    (mappings : Dict String) (d : DirectoryUser) : Type 0 where
  pub entry : DirectoryEntry
  pub enabled : cfg.ldap_enabled ≡ true
  pub found : directory.search_user (escape_filter username) ≡ ok (some entry)
  pub given : is_empty_text password ≡ false
  pub bound : directory.bind entry.dn password ≡ ok tt
  pub dn : d.dn ≡ entry.dn
  pub roles : d.roles ≡ map_roles py cfg d.groups mappings

user_failed-ok : (r : Result LdapException (Unit {0})) → user_failed r ≡ ok tt → r ≡ ok tt
user_failed-ok (ok u) h = refl
user_failed-ok (err socket_open) h = absurd (cc)
user_failed-ok (err bind_error) h = absurd (cc)
user_failed-ok (err other_exception) h = absurd (cc)

found_entry-ok :
    (r : Result LdapException (Option DirectoryEntry)) (entry : DirectoryEntry)
    → found_entry r ≡ ok entry
    → r ≡ ok (some entry)
found_entry-ok (ok (some e)) entry h = ap (λ x. ok (some x)) (ok-injective h)
found_entry-ok (ok none) entry h = absurd (cc)
found_entry-ok (err e) entry h = absurd (cc)

not-not : (b : Bool) → not b ≡ false → b ≡ true
not-not true h = refl
not-not false h = absurd (cc)

-- The directory accepts a login only if it knows the name, as it is written and not as a pattern,
-- and takes the password of that entry; an empty password is never accepted. The roles are
-- those that the mappings give to the groups.
pub authenticate-Bound :
    (py : Python) (cfg : Settings) (directory : Directory) (username password : String)
    (mappings : Dict String) (d : DirectoryUser)
    → authenticate py cfg directory username password mappings ≡ ok d
    → Bound py cfg directory username password mappings d
unfolding authenticate find_user directory_user
authenticate-Bound py cfg directory username password mappings d h =
    let (off, h1) = guarded-ok (not cfg.ldap_enabled) ldap_configuration _ h in
    let (given, h2) =
      guarded-ok (is_empty_text username || is_empty_text password) ldap_authentication _ h1 in
    let (_, service, h3) = >>=-eq-ok (service_failed directory.service_bind) _ h2 in
    let (entry, e, h4) = >>=-eq-ok (find_user py cfg directory username) _ h3 in
    let (u, b, h5) = >>=-eq-ok (user_failed (directory.bind entry.dn password)) _ h4 in
    record {
      entry = entry;
      enabled = not-not cfg.ldap_enabled off;
      found = found_entry-ok (directory.search_user (escape_filter username)) entry e;
      given = or_right (is_empty_text username) (is_empty_text password) given;
      bound = user_failed-ok (directory.bind entry.dn password) b;
      dn = sym (ap (λ (x : DirectoryUser). x.dn) (ok-injective h5));
      roles =
          sym (ap (λ (x : DirectoryUser). x.roles) (ok-injective h5))
          ∙ ap (λ (x : DirectoryUser). map_roles py cfg x.groups mappings) (ok-injective h5);
    }
