-- ===== src/Payouts.antt =====
-- payouts/unlocker.go: how the rewards of found blocks are shared out and when they are credited.
-- payouts/payer.go holds a configuration and a processor whose methods are all commented out.
pub mod Rational
pub mod Rewards
pub mod Unlocker
