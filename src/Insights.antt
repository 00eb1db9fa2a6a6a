-- ===== src/Insights.antt =====
-- internal/insights: the digest of a run, the analysis that a model writes of it, and the check of its
-- numbers.
pub mod Verify
pub mod Generate
pub mod Digest
