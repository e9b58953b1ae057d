-- ===== src/Examples.antt =====
-- The theorems at concrete inputs: a module per package of the repository.
mod Host
mod Ringbuf
mod RateLimiter
mod Domain
mod Acl
mod Pipeline
mod Fields
mod Migration
mod Worker
mod Middleware
mod Service
mod Errors
mod Agent
mod LogTailer
mod Collector
mod Pagination
