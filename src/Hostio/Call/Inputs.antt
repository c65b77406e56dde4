-- ===== src/Hostio/Call/Inputs.antt =====
-- That the bodies of the host functions of main/src/hostio.rs compare what the guest passes with
-- the trace.
pub mod Data
pub mod Account
pub mod Chain
pub mod Calls
pub mod Math
pub mod Console
