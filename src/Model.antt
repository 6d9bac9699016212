-- ===== src/Model.antt =====
-- The records that the server stores. Times are nanoseconds of UTC.
pub mod Hex
pub mod Container
pub mod Node
pub mod Token
pub mod Database
pub mod Names
