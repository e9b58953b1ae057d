-- ===== src/Errors.antt =====
-- internal/agent/errors: the signatures by which errors are grouped, their types, and the flusher.
pub mod Signature
pub mod Exceptions
pub mod Flusher
pub mod Collector
