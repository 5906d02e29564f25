-- ===== src/Shardmap.antt =====
-- internal/shardmap: the Robin Hood table of one shard, and the map that routes keys to shards.
pub mod Meta
pub mod Table
pub mod Options
pub mod Routing
pub mod Sample
