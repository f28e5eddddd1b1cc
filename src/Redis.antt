-- ===== src/Redis.antt =====
-- Redis: the recorder and the replay.
pub mod Recorder
pub mod Replay
