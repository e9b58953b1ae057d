-- ===== src/Service.antt =====
-- internal/service: the chain of computed fields.
pub mod ComputeChain
