-- ===== src/Command.antt =====
-- The commands of cmd: what they check, and in which order they acquire and give back.
pub mod Init
pub mod Serve
pub mod Cli
