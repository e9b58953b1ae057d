-- ===== src/Agent.antt =====
-- internal/agent: the sampler of raw events, the statistics and the aggregator of a window, the detector
-- of repeated queries, and the tailer of the log.
pub mod Sampler
pub mod Stats
pub mod Aggregator
pub mod N1Tracker
pub mod LogTailer
