-- ===== src/Cache.antt =====
-- internal/cache: the engine.
pub mod Entry
pub mod Store
pub mod Backing
pub mod Policies
pub mod Engine
pub mod Accounting
