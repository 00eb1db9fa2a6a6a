-- ===== src/Tests.antt =====
-- Concrete runs: tests by evaluation, and each theorem at an input that meets its hypotheses.
mod Bus
mod Wer
mod Dispatch
mod Calls
mod Runs
mod Streams
mod Reports
mod Pacing
mod Sockets
mod Texts
mod Judging
mod Matrix
mod Fleet
mod Topics
mod Log
mod Judged
