-- ===== src/Lib.antt =====
-- cachemoney, an in-memory cache that speaks the Redis protocol. Its parts and the files here that
-- model them:
--
-- * internal/resp, the wire protocol. Resp/Reader is ReadCommand and what it calls (reader.go),
--   Resp/Decimal its parseInt and the decimal text that the Writer emits, Resp/Limits the options
--   (limits.go), Resp/Errors the framing faults (errors.go), Resp/Writer every method of the reply
--   writer (writer.go). Resp/Reader/* and Resp/Writer/* hold the proofs.
-- * internal/tinylfu, the frequency policy. TinyLfu/Words is doc.go's nextPow2 and mix, and
--   TinyLfu/Sketch, Doorkeeper, Buffer and Policy are sketch.go, doorkeeper.go, buffer.go and
--   policy.go. A word is a number below 2^64 and wraps by `% u64` where Go's arithmetic can.
-- * internal/shardmap, the map behind the engine. Shardmap/Meta is the metadata word of a slot and
--   Shardmap/Table the Robin Hood table, both of table.go; Shardmap/Table/* hold the proofs.
--   Shardmap/Options is options.go, Shardmap/Routing map.go and Shardmap/Sample sample.go.
-- * internal/cache, the engine. Cache/Entry is the stored entry, its expiry and cost.go,
--   Cache/Policies the policies of policy.go, Cache/Engine the methods of cache.go, evict.go and
--   stats.go, Cache/Accounting the updates of `usage` by goroutines that interleave.
-- * internal/server, the commands. Server/Replies is reply.go and asciiUpper of dispatch.go,
--   Server/Dispatch the rest of dispatch.go, Server/Settings config.go, and
--   Server/Expiry parseExpireInt and parseSetExpiry of commands.go.
--
-- A command comes in through the Reader; the engine calls its backing map, internal/shardmap, and
-- the policy, to which it hands a hash of each key that is read, and which it asks for estimates
-- when it must evict. The map is the interface `Store` of Cache/Store, a record of the operations
-- that the engine calls and of what they promise. Cache/Backing fills it from the operations of
-- Shardmap/Routing and Shardmap/Sample; Tests/ListStore is an association list that fills it too, on
-- which the tests run. The parallel arrays of a table are one list of slots.
--
-- State is passed explicitly: an operation takes the state and returns the new one with its result,
-- an error as a value. What the environment decides is an argument: readings of the clock, random
-- draws, whether a lock is taken, the hash of a key, how a stream ends, which writes fail. A Go int
-- or int64 is an integer; where a value is known to fit it is not reduced, and parseInt's bound is
-- 2^63 - 1.
--
-- Fuel: decimal digits of `n` have fuel `n + 1`, bits.Len64 has 64, and the eviction loop has two
-- rounds more than the misses that are allowed and the entries stored; it never runs out on a
-- cache whose accounting is exact. A probe of `set` has twice the slots of the table and one more,
-- a probe of `lookup` 256, since a distance is below that. `insert` and `delete` take fuel for the
-- growths that overflows of the metadata force, one inside the other. A distance can overflow only
-- where 256 entries have their homes within 255 slots of one another, and a growth spreads them out;
-- 63 growths, with which Shardmap/Routing calls them, take a table past 2^64 slots, so that they are
-- enough unless 256 hashes crowd together there. newTable doubles from 8 to 2^61, past which its int
-- wraps. nextPow2 and log2PowerOf2 have 63 rounds, one for each power of two that an int holds, and
-- the scan of sampleSlot has as many as slots.
--
-- Not modelled: the locks of internal/shardmap, which make its calls atomic, and how calls of
-- several goroutines interleave; internal/server's handlers, connections, event loop and shutdown;
-- internal/hash, which calls hash/maphash; the drainer goroutine's
-- scheduling and Close; internal/bench, cmd/ and bench/, which are tools and wiring.
pub mod Base
pub mod Resp
pub mod TinyLfu
pub mod Shardmap
pub mod Cache
pub mod Server
pub mod Tests
