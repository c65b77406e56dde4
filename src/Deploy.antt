-- ===== src/Deploy.antt =====
-- The command `cargo stylus deploy` (main/src/deploy).
pub mod Calldata
pub mod Config
pub mod Transactions
pub mod Deployer
pub mod Command
