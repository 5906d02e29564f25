-- ===== src/Tests/BackedRuns.antt =====
-- internal/cache over the map of internal/shardmap: a Set into an empty cache of four shards.
use cachemoney.Base.{ℕ, ◌*◌, ◌^◌, ◌%◌, replicate, length}
use cachemoney.Base.Int.{pos}
use cachemoney.Cache.Entry.{Bytes, Entry}
use cachemoney.Cache.Policies.{EvictionPolicy}
use cachemoney.Cache.Backing.{byte_keys}
use cachemoney.Cache.Engine.{Cache}
use cachemoney.Shardmap.Table.{Table, alloc}
use cachemoney.Shardmap.Routing.{Map, new}
use cachemoney.TinyLfu.Policy

-- The last two bits of a key's length choose the shard.
abbrev by_size : ℕ → Bytes → ℕ
by_size seed k = length k * 2 ^ 62 % 2 ^ 64

abbrev free_table : Table Bytes Entry
free_table = alloc byte_keys 8

abbrev free_shards : Map ℕ Bytes Entry
free_shards = record {
  shards = replicate 4 free_table;
  seed = 9;
  hasher = by_size;
  shard_shift = 62;
}

-- A hash under the fingerprint seed.
abbrev fingerprint : Bytes → ℕ
fingerprint k = length k

abbrev backed : Cache (Map ℕ Bytes Entry)
backed = record {
  m = free_shards;
  policy =
      Policy.new 1 (record { counters = pos 16; stripes = pos 1; ring_depth = pos 4; seed = 3 });
  policy_seed = 3;
  usage = pos 0;
  maxmemory = pos 150;
  evict_pol = EvictionPolicy.all_keys_lfu;
  policy_counters = pos 1024;
  hits = 0;
  misses = 0;
  evictions = 0;
}
