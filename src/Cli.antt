-- ===== src/Cli.antt =====
-- The command line (main/src/main.rs).
pub mod Config
pub mod Words
pub mod Display
pub mod Startup
pub mod Run
pub mod Replay
