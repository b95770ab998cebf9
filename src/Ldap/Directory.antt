-- ===== src/Ldap/Directory.antt =====
-- app/services/ldap_auth.py: the login of a user in the directory. What the directory answers to a
-- bind or a search is a parameter; the search filters around the escaped values, the connection's
-- options, and the attributes in `raw` are left out.
use open_mdm.Base.{
  String, not, ◌||◌, Option, none, some, List, [], ◌∷◌, ◌++◌, Dict, keep, if◌then◌else◌,
}
use open_mdm.Base.Results.{Result, ok, err, ◌>>=◌}
use open_mdm.Base.Text.{is_empty_text}
use open_mdm.Ldap.{escape_filter, add_sorted, map_roles}
use open_mdm.Python.{Python}
use open_mdm.Settings.{Settings}

-- LDAPSocketOpenError; LDAPBindError or LDAPInvalidCredentialsResult; any other LDAPException.
pub data LdapException : Type 0 where
  socket_open bind_error other_exception : LdapException

-- LDAPAuthenticationError, LDAPUnavailableError, LDAPConfigurationError; an LDAPException that
-- `authenticate` does not catch.
pub data DirectoryError : Type 0 where
  ldap_authentication ldap_unavailable ldap_configuration ldap_exception : DirectoryError

-- The first values of the three attributes that the settings name, and memberOf.
pub record DirectoryEntry : Type 0 where
  pub dn : String
  pub member_of : List String
  pub username : Option String
  pub email : Option String
  pub display_name : Option String

-- `bind` takes the DN and the password of a user; the searches take escaped values.
pub record Directory : Type 0 where
  pub service_bind : Result LdapException (Unit {0})
  pub bind : String → String → Result LdapException (Unit {0})
  pub search_user : String → Result LdapException (Option DirectoryEntry)
  pub search_groups : String → Result LdapException (List String)

pub record DirectoryUser : Type 0 where
  pub username : String
  pub dn : String
  pub email : Option String
  pub display_name : Option String
  pub groups : List String
  pub roles : List String

-- `sorted` of the set of the elements.
abbrev pub sorted_set : List String → List String
sorted_set [] = []
sorted_set (x ∷ xs) = add_sorted x (sorted_set xs)

-- Whatever the search raises, the direct groups remain.
abbrev pub nested_groups : Result LdapException (List String) → List String
nested_groups (ok groups) = groups
nested_groups (err e) = []

abbrev pub service_failed : Result LdapException (Unit {0}) → Result DirectoryError (Unit {0})
service_failed (ok u) = ok u
service_failed (err socket_open) = err ldap_unavailable
service_failed (err bind_error) = err ldap_configuration
service_failed (err other_exception) = err ldap_exception

abbrev pub user_failed : Result LdapException (Unit {0}) → Result DirectoryError (Unit {0})
user_failed (ok u) = ok u
user_failed (err socket_open) = err ldap_unavailable
user_failed (err bind_error) = err ldap_authentication
user_failed (err other_exception) = err ldap_exception

abbrev pub found_entry :
    Result LdapException (Option DirectoryEntry) → Result DirectoryError DirectoryEntry
found_entry (ok (some entry)) = ok entry
found_entry (ok none) = err ldap_authentication
found_entry (err e) = err ldap_exception

-- `first or other`
abbrev pub or_text : Option String → String → String
or_text none other = other
or_text (some first) other = if is_empty_text first then other else first

module _ (py : Python) (cfg : Settings) (directory : Directory) where
  unfoldable pub find_user : String → Result DirectoryError DirectoryEntry
  find_user username = found_entry (directory.search_user (escape_filter username))

  unfoldable pub resolve_groups : String → List String → List String
  resolve_groups user_dn member_of = sorted_set (
      keep (λ g. not (is_empty_text g)) member_of
      ++ (if cfg.ldap_nested_groups
          then nested_groups (directory.search_groups (escape_filter user_dn))
          else []))

  unfoldable pub directory_user : String → DirectoryEntry → Dict String → DirectoryUser
  directory_user username entry mappings =
      let groups = resolve_groups entry.dn entry.member_of in
      record {
        username = or_text entry.username username;
        dn = entry.dn;
        email = entry.email;
        display_name = entry.display_name;
        groups = groups;
        roles = map_roles py cfg groups mappings;
      }

  -- The entry is found with the service's bind, the password checked by a bind as the user.
  unfoldable pub authenticate : String → String → Dict String → Result DirectoryError DirectoryUser
  unfolding find_user
  authenticate username password mappings =
      if not cfg.ldap_enabled
      then err ldap_configuration
      else if is_empty_text username || is_empty_text password
      then err ldap_authentication
      else (service_failed directory.service_bind >>= λ _. find_user username >>= λ entry.
          user_failed (directory.bind entry.dn password) >>= λ _.
          ok (directory_user username entry mappings))
