-- ===== src/Resp.antt =====
-- internal/resp: the RESP codec.
pub mod Decimal
pub mod Errors
pub mod Limits
pub mod Reader
pub mod Writer
