-- ===== src/Tests.antt =====
-- Runs at concrete inputs, each of a theorem of the other modules.
pub mod Finance
pub mod Coinbase
pub mod Rpc
pub mod Stats
pub mod Reads
pub mod Api
pub mod Util
pub mod Main
pub mod Collect
pub mod Rows
pub mod Shares
pub mod Payouts
pub mod Policy
pub mod Proxy
