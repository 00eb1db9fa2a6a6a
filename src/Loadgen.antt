-- ===== src/Loadgen.antt =====
-- internal/loadgen: placing calls at each level of concurrency, and what the report makes of them.
pub mod Outcome
pub mod Dispatch
pub mod Profile
pub mod Nodes
pub mod Tasks
pub mod Quality
pub mod Budget
pub mod Score
pub mod Phase
pub mod StepReport
pub mod Timeline
pub mod Waits
pub mod Summary
pub mod Conversation
pub mod Distributed
pub mod Run
pub mod Matrix
