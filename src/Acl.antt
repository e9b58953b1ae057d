-- ===== src/Acl.antt =====
-- internal/acl: the stages that answer why a user cannot see a record.
pub mod Like
pub mod Host
pub mod Any
pub mod Compare
pub mod Types
pub mod Users
pub mod Groups
pub mod Resolve
pub mod Evaluate
pub mod ModelAcl
pub mod RecordRules
pub mod Suggestions
pub mod Fields
pub mod Pipeline
