-- ===== src/Judge.antt =====
-- internal/judge: how a call is judged, the word error rate, and the agreement with a person.
pub mod Wer
pub mod Agreement
pub mod Correlate
pub mod Grade
pub mod Retry
