-- ===== src/Api.antt =====
-- internal/api: the HTTP handlers of the server.
pub mod Http
pub mod Stream
pub mod Construct
pub mod Report
pub mod Join
pub mod Session
pub mod Auth
pub mod Routes
pub mod Containers
pub mod Tokens
pub mod WatchNode
