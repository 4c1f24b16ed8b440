-- ===== src/Bitcoin.antt =====
-- The package bitcoin/: coinbase transactions and difficulties.
pub mod Number
pub mod Coinbase
pub mod Difficulty
