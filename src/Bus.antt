-- ===== src/Bus.antt =====
-- internal/bus and cmd/worker: the dispatcher and the workers on the dispatch topics.
pub mod Worker
pub mod Fleet
pub mod Dispatcher
