-- ===== src/Common.antt =====
-- kvstore/common: string helpers, shards and the shardmaster's configuration.
pub mod Utils
pub mod Shard
pub mod Config
