-- ===== src/Worker.antt =====
-- internal/worker: one synthetic caller.
pub mod Turn
pub mod Walk
pub mod Rtt
pub mod Pump
pub mod Reader
pub mod Handshake
pub mod Speech
