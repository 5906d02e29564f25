-- ===== src/Server.antt =====
-- internal/server, the commands of the protocol over the engine and the Writer.
pub mod Replies
pub mod Expiry
pub mod Settings
pub mod Dispatch
