-- ===== src/Tests.antt =====
-- Runs of the modelled code on concrete data, and the theorems applied to them.
mod ListStore
mod RespRuns
mod TinyLfuRuns
mod BackedRuns
mod CacheRuns
mod ServerRuns
mod ShardmapRuns
