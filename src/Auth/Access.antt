-- ===== src/Auth/Access.antt =====
-- The guards of app/api/deps.py that stand before an endpoint of an entity.
use open_mdm.Auth.{has_permission, can_access_entity}
use open_mdm.Base.{String, Option, none, some, List, any, member, find_first, ◌==◌, if◌then◌else◌}
use open_mdm.Base.Results.{Result, ok, err}
use open_mdm.Models.{User, Entity, is_deployed}
use open_mdm.Python.{Python}
use open_mdm.Python.Str.{lower}

pub data Denied : Type 0 where
  no_permission no_role unknown_entity not_published no_access : Denied

abbrev pub require_permission : String → User → Result Denied User
require_permission permission principal =
    if has_permission principal.roles permission then ok principal else err no_permission

-- `set(roles) & set(principal.roles)` is not empty.
abbrev pub require_roles : List String → User → Result Denied User
require_roles roles principal =
    if any (λ role. member role principal.roles) roles then ok principal else err no_role

abbrev pub entity_or_error : Option Entity → Result Denied Entity
entity_or_error none = err unknown_entity
entity_or_error (some entity) = ok entity

abbrev pub get_entity : Python → List Entity → String → Result Denied Entity
get_entity py entities name =
    entity_or_error (find_first (λ (e : Entity). e.name == lower py name) entities)

abbrev pub get_deployed_entity : Entity → Result Denied Entity
get_deployed_entity entity = if is_deployed entity then ok entity else err not_published

abbrev pub check_entity_access : Entity → User → String → Result Denied (Unit {0})
check_entity_access entity principal action =
    if can_access_entity principal entity.name action then ok tt else err no_access
