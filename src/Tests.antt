-- ===== src/Tests.antt =====
-- Runs of the model on concrete inputs. A witness applies a theorem to one, so it shows that the
-- theorem's hypotheses can hold together.
pub mod Fixtures
mod Accounts
mod Auth
mod Batches
mod Ddl
mod ModelApi
mod Ldap
mod Landing
mod Promotion
mod Validation
mod Review
mod System
mod Identifiers
