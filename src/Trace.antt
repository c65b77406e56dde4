-- ===== src/Trace.antt =====
-- Traces of host calls (main/src/trace.rs).
pub mod Kinds
pub mod Names
pub mod Json
pub mod Cursor
pub mod Parse
pub mod Print
pub mod Reader
pub mod Fetch
