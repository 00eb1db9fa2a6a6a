-- ===== src/Metrics.antt =====
-- internal/metrics: the record of a turn, its millisecond mirrors, the percentile and the event log.
pub mod Turn
pub mod Percentile
pub mod Mirror
pub mod Log
