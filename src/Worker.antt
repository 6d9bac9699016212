-- ===== src/Worker.antt =====
-- internal/worker: what runs on a node.
pub mod State
pub mod Join
pub mod Heartbeat
pub mod Watch
pub mod Docker
pub mod Start
