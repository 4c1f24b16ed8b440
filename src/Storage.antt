-- ===== src/Storage.antt =====
-- storage/redis.go: the pool's data in Redis.
pub mod Keys
pub mod Rows
pub mod Commands
pub mod Shares
pub mod Stats
pub mod Scan
pub mod Reads
pub mod Collect
pub mod Luck
pub mod Finance
