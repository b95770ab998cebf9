-- ===== src/Tests/Ldap.antt =====
-- Witnesses for the directory.
use open_mdm.Base.{◌≡◌, some}
use open_mdm.Ldap.{escape_filter}
use open_mdm.Ldap.Escape.{read_filter, codes, read-escape_filter}

read-escape_filter_example : read_filter (escape_filter "*)(uid=*") ≡ some (codes "*)(uid=*")
read-escape_filter_example = read-escape_filter "*)(uid=*"
