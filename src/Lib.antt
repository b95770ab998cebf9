-- ===== src/Lib.antt =====
-- Verification of the open-mdm master data management service: the pipeline that takes a write
-- from the landing tier over staging to the golden records, and what it builds on.
--
-- A write is captured in the landing table whatever its payload is. A promotion validates each
-- pending row, finds the golden record that it is about, and stages it with its errors. A steward
-- edits, rejects or approves a staged row; an approval inserts, updates or deletes the golden
-- record and writes the state before the change to the history.
--
-- The parts, and the code that each models:
--   Identifiers          app/services/identifiers.py: validate_ident, validate_column_name,
--                        quote_ident, qualified; Identifiers/Types: TYPE_MAP, pg_type, type_rank,
--                        is_safe_widening
--   Validation           app/services/validation.py: normalize_value, coerce_value; its children
--                        Constraints, Record and MatchKey: check_constraints, validate_record,
--                        build_match_key
--   Models, Settings     app/models/meta.py and app/config.py: the records that the services read
--   Tiers                the four tables that app/services/ddl.py creates for one entity
--   Ddl                  app/services/ddl.py: columns_from_entity, DDLPlan, _render_default; its
--                        children Create: build_landing_ddl and its siblings, build_create_plan;
--                        Alter: build_alter_plan, _render_pg, build_drop_plan; Catalog:
--                        reflect_columns, apply_plan; Deployed: what the tables promise
--   Pipeline/Landing     app/services/pipeline.py: write_to_landing
--   Pipeline/Promotion   promote_landing_to_staging; its child Target: _resolve_target
--   Pipeline/Review      apply_staging_to_live, reject_staging, edit_staging; its child Golden:
--                        _apply_insert, _apply_update, _apply_delete, _write_history
--   ModelIo              app/services/model_io.py: entity_to_dict; its child Import: apply_import
--                        and, from the validated document on, import_models of the model API
--   Registry             the tables of app/models/meta.py that hold entities and their versions
--   ModelApi             app/api/v1/models_api.py: create_entity, update_entity; its children
--                        Publish: publish_entity, delete_entity; Events: the requests one after
--                        another, each in the transaction of get_db of app/db.py
--   Auth                 app/services/auth.py: PERMISSIONS, permissions_for, has_permission,
--                        can_access_entity, authenticate_api_key; app/api/deps.py:
--                        get_current_principal, require_permission, require_roles, get_entity,
--                        get_deployed_entity, check_entity_access
--   Accounts             app/services/auth.py: authenticate_user, _upsert_ldap_user,
--                        ensure_local_admin, issue_api_key; its child Admin: the changes that
--                        app/api/v1/admin.py makes, and the login of app/api/v1/auth.py
--   Ldap                 app/services/ldap_auth.py: _escape_filter, _normalize_dn, map_roles; its
--                        child Directory: authenticate, find_user, resolve_groups
--   System               the transactions that app/api/v1/data.py and app/api/v1/stewardship.py run;
--                        its children Bulk: bulk_write; Batches: bulk_approve, bulk_reject
--   Sql                  the connection and session as a state monad with exceptions
--   Python, Base         values, the parts of Python that no code here implements, shared helpers
--
-- A service function is an action: from a state (the four tables, whether the transaction is
-- aborted, the time, the audit events and the batches) to a result or an exception, and a state. A
-- statement of the code is a `statement` of the model: a read or a change of the tables that the
-- database may refuse, after which the transaction is aborted. `begin` rolls the tables back when
-- an exception leaves the block. Rows stand in the order of their ids, so a query's first row is
-- the one with the least id. The tables are those of one entity, since no service function here
-- touches another's. Transactions follow one another; concurrent ones are not modelled.
--
-- Parameters. `Python` holds what the code takes from Python's library and the Unicode tables: case
-- of characters beyond ASCII, parsers of numbers and dates, JSON, regular expressions. `Postgres`
-- holds what the database decides: the DEFAULT of a column, the canonical text of a UUID, a fresh
-- UUID, equality and folding in SQL, and whether it accepts a row. `Directory` holds the answers of
-- the LDAP server. The hashes of keys and passwords, new secrets and the decoding of a session token
-- are parameters too. Where a theorem needs the database to accept a row, or two parameters to
-- agree, it has that as a hypothesis; nothing else is assumed of any of them. The sequences, the
-- partial unique index on idempotency keys and the uniqueness of a key's prefix are written out in
-- the model; the lengths and types of columns are left to the database's answer on a row.
--
-- A DDL statement is data. The catalog holds the columns of each table as information_schema
-- reports them, and executing a statement changes it; `accepts`, a parameter, stands for every other
-- reason for which Postgres may refuse one. A column type is compared by its parts, not its text.
--
-- The model API keeps its entities in one session and changes the tables in a transaction of its
-- own, which is committed first. The unique constraints on entities, attributes and versions are
-- written out; a parameter stands for the other constraints. The attributes of an entity stand in
-- the order of their positions, which is how the relationship loads them, those of one position as
-- they were inserted. A request that fails rolls back the metadata, not the tables.
--
-- Loops run over lists, so nothing runs on fuel. Lengths and versions are natural numbers, since
-- nothing in the code bounds them; integers of a payload are integers with the code's own limits.
--
-- Left out: the texts of error messages, logging, the before and after values of an audit event,
-- the endpoint around a single write or review, and the import of CSV. The session tokens that a login
-- issues, the options of the directory's connection, the validation of an import document, the
-- texts of an export, the endpoints that only read, and the bootstrap are not modelled.
mod Base
pub mod Python
pub mod Models
pub mod Identifiers
pub mod Validation
pub mod Settings
pub mod Tiers
pub mod Ddl
pub mod ModelIo
pub mod Registry
pub mod ModelApi
pub mod Sql
pub mod Pipeline
pub mod System
pub mod Auth
pub mod Accounts
pub mod Ldap
pub mod Tests
