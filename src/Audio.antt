-- ===== src/Audio.antt =====
-- internal/audio: where sound starts in a reply, and the recording of a call.
pub mod Onset
pub mod Recorder
