-- ===== src/Hostio.antt =====
-- The host functions of the replay (main/src/hostio.rs).
pub mod State
pub mod Data
pub mod Account
pub mod Chain
pub mod Calls
pub mod Math
pub mod Console
pub mod Call
