-- ===== src/Proxy.antt =====
-- proxy/: what the Stratum server and the HTTP server do with the work that they hand out and get back.
pub mod Work
pub mod Template
pub mod Miner
pub mod Session
pub mod Upstream
pub mod Stratum
pub mod Http
pub mod Broadcast
pub mod Difficulty
