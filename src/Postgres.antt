-- ===== src/Postgres.antt =====
-- PostgreSQL: the wire protocol, the recorder, the encoder of backend messages, and the replay.
pub mod Messages
pub mod Encoder
pub mod Recorder
pub mod Replay
pub mod Recorded
pub mod Session
